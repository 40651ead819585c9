-- ===== src/Sidecar/Remote/Pending/Outstanding.antt =====
-- `PendingRemote` stands for the list of the hazards that are registered and not yet cleared.
use nvim_remote_mirror.Prelude.{
  ℕ, zero, suc, ◌+◌, ◌-◌, ◌≤◌, ◌<◌, ◌≡◌, refl, ap, true, List, [], ◌∷◌, ◌++◌, Text, list_eq,
  list_eq→eq, list_eq_refl, ltb, ◌==◌, if◌then◌else◌, u64_mod, All, length, Bool-cases, inl, inr,
  arith, some, length-append,
}
use nvim_remote_mirror.Sidecar.Remote.Request.{PendingHazard}
use nvim_remote_mirror.Sidecar.Remote.Pending.{
  Counts, PendingRemote, count_up, count_down, count_up_all, count_down_all, contains_key, register,
  clear,
}
use nvim_remote_mirror.Sidecar.Remote.Queue.{get_elem?, remove_at}

-- How often a path is counted, and how often it is in a list.
abbrev pub counted : Text → Counts → ℕ
counted path [] = 0
counted path ((key, count) ∷ rest) = (if list_eq path key then count else 0) + counted path rest

abbrev pub times : Text → List Text → ℕ
times path [] = 0
times path (key ∷ rest) = (if list_eq path key then 1 else 0) + times path rest

abbrev pub Positive : Counts → Type 0
Positive counts = All (λ entry. 0 < entry.1) counts

same_key : (path key key' : Text) → list_eq key key' ≡ true → list_eq path key ≡ list_eq path key'
same_key path key key' e = ap (list_eq path) (list_eq→eq key key' e)

pub contains_key-counted :
    (path : Text) (counts : Counts)
    → Positive counts
    → contains_key path counts ≡ ltb 0 (counted path counts)
unfolding contains_key
contains_key-counted path [] p = refl
contains_key-counted path ((key, count) ∷ rest) p =
    ground (arith, contains_key-counted path rest p.1, p.0)

counted-count_up :
    (path key : Text) (counts : Counts)
    → counted key counts + 1 < u64_mod
    → counted path (count_up key counts) ≡ (if list_eq path key then 1 else 0) + counted path counts
unfolding count_up
counted-count_up path key [] h = omega arith
counted-count_up path key ((k, count) ∷ rest) h = elim (Bool-cases (list_eq key k)) [
  | inl e ↦ rw e (ground (arith, same_key path key k e))
  | inr e ↦ rw e (ground (arith, counted-count_up path key rest (ground arith)))
]

Positive-count_up :
    (key : Text) (counts : Counts)
    → counted key counts + 1 < u64_mod
    → Positive counts
    → Positive (count_up key counts)
unfolding count_up
Positive-count_up key [] h p = (omega arith, tt)
Positive-count_up key ((k, count) ∷ rest) h p = elim (Bool-cases (list_eq key k)) [
  | inl e ↦ rw e (ground arith, p.1)
  | inr e ↦ rw e (p.0, Positive-count_up key rest (ground arith) p.1)
]

counted-count_down :
    (path key : Text) (counts : Counts)
    → Positive counts
    → 0 < counted key counts
    → (if list_eq path key then 1 else 0) + counted path (count_down key counts)
      ≡ counted path counts
unfolding count_down
counted-count_down path key [] p h = absurd (omega arith)
counted-count_down path key ((k, count) ∷ rest) p h = elim (Bool-cases (list_eq key k)) [
  | inl e ↦ ground (arith, same_key path key k e, p.0)
  | inr e ↦ ground (arith, counted-count_down path key rest p.1 (ground arith))
]

Positive-count_down :
    (key : Text) (counts : Counts) → Positive counts → Positive (count_down key counts)
unfolding count_down
Positive-count_down key [] p = tt
Positive-count_down key ((k, count) ∷ rest) p = elim (Bool-cases (list_eq key k)) [
  | inl e ↦ elim (Bool-cases ((count - 1) == 0)) [
    | inl z ↦ rw (e, z) p.1
    | inr z ↦ rw (e, z) (ground arith, p.1)
  ]
  | inr e ↦ rw e (p.0, Positive-count_down key rest p.1)
]

counted-count_up_all :
    (path : Text) (paths : List Text) (counts : Counts)
    → ((key : Text) → counted key counts + length paths < u64_mod)
    → counted path (count_up_all paths counts) ≡ times path paths + counted path counts
unfolding count_up_all
counted-count_up_all path [] counts h = omega arith
counted-count_up_all path (p ∷ paths) counts h = omega (
  arith,
  counted-count_up_all path paths (count_up p counts)
      (λ key. ground (arith, counted-count_up key p counts (ground (arith, h p)), h key)),
  counted-count_up path p counts (ground (arith, h p)),
)

Positive-count_up_all :
    (paths : List Text) (counts : Counts)
    → ((key : Text) → counted key counts + length paths < u64_mod)
    → Positive counts
    → Positive (count_up_all paths counts)
unfolding count_up_all
Positive-count_up_all [] counts h p = p
Positive-count_up_all (x ∷ paths) counts h p =
    Positive-count_up_all paths (count_up x counts)
      (λ key. ground (arith, counted-count_up key x counts (ground (arith, h x)), h key))
      (Positive-count_up x counts (ground (arith, h x)) p)

-- The paths that are taken away are counted.
counted-count_down_all :
    (path : Text) (paths : List Text) (counts : Counts)
    → Positive counts
    → ((key : Text) → times key paths ≤ counted key counts)
    → times path paths + counted path (count_down_all paths counts) ≡ counted path counts
unfolding count_down_all
counted-count_down_all path [] counts p h = omega arith
counted-count_down_all path (x ∷ paths) counts p h =
    let there : 0 < counted x counts = ground (arith, h x, list_eq_refl x) in
    omega (
      arith,
      counted-count_down_all path paths (count_down x counts) (Positive-count_down x counts p)
          (λ key. ground (arith, counted-count_down key x counts p there, h key)),
      counted-count_down path x counts p there,
    )

Positive-count_down_all :
    (paths : List Text) (counts : Counts) → Positive counts → Positive (count_down_all paths counts)
unfolding count_down_all
Positive-count_down_all [] counts p = p
Positive-count_down_all (x ∷ paths) counts p =
    Positive-count_down_all paths (count_down x counts) (Positive-count_down x counts p)

abbrev pub all_paths : List PendingHazard → List Text
all_paths [] = []
all_paths (hazard ∷ rest) = hazard.exact_paths ++ all_paths rest

abbrev pub unknowns : List PendingHazard → ℕ
unknowns [] = 0
unknowns (hazard ∷ rest) = (if hazard.unknown_content_mutation then 1 else 0) + unknowns rest

pub record Outstanding (pending : PendingRemote) (hazards : List PendingHazard) : Type 0 where
  pub unknown_counted : pending.unknown_content_mutations ≡ unknowns hazards
  pub paths_counted :
      (path : Text) → counted path pending.exact_paths ≡ times path (all_paths hazards)
  pub positive : Positive pending.exact_paths

pub times-append :
    (path : Text) (xs ys : List Text) → times path (xs ++ ys) ≡ times path xs + times path ys
times-append path [] ys = omega arith
times-append path (x ∷ xs) ys = omega (arith, times-append path xs ys)

times_le : (path : Text) (xs : List Text) → times path xs ≤ length xs
times_le path [] = omega arith
times_le path (x ∷ xs) = ground (arith, times_le path xs)

unknowns_le : (hazards : List PendingHazard) → unknowns hazards ≤ length hazards
unknowns_le [] = omega arith
unknowns_le (hazard ∷ rest) = ground (arith, unknowns_le rest)

-- The hazards fit the counters.
abbrev pub Fits : List PendingHazard → Type 0
Fits hazards = length (all_paths hazards) + length hazards + 1 < u64_mod

pub register-Outstanding :
    (hazard : PendingHazard) (pending : PendingRemote) (hazards : List PendingHazard)
    → Outstanding pending hazards
    → Fits (hazard ∷ hazards)
    → Outstanding (register hazard pending) (hazard ∷ hazards)
unfolding register
register-Outstanding hazard pending hazards o f =
    let paths = hazard.exact_paths in
    let room : (key : Text) → counted key pending.exact_paths + length paths < u64_mod = λ key.
      omega (
        arith,
        o.paths_counted key,
        times_le key (all_paths hazards),
        length-append paths (all_paths hazards),
        f,
      ) in
    record {
      unknown_counted = ground (arith, o.unknown_counted, unknowns_le hazards, f);
      paths_counted = λ path. omega (
        arith,
        counted-count_up_all path paths pending.exact_paths room,
        o.paths_counted path,
        times-append path paths (all_paths hazards),
      );
      positive = Positive-count_up_all paths pending.exact_paths room o.positive;
    }

times-all_paths-remove_at :
    (path : Text) (i : ℕ) (hazards : List PendingHazard) (hazard : PendingHazard)
    → get_elem? hazards i ≡ some hazard
    → times path (all_paths (remove_at i hazards)) + times path hazard.exact_paths
      ≡ times path (all_paths hazards)
times-all_paths-remove_at path i [] hazard e = absurd (cc)
times-all_paths-remove_at path zero (h ∷ hazards) hazard e =
    ground (arith, times-append path h.exact_paths (all_paths hazards))
times-all_paths-remove_at path (suc i) (h ∷ hazards) hazard e = omega (
  arith,
  times-all_paths-remove_at path i hazards hazard e,
  times-append path h.exact_paths (all_paths hazards),
  times-append path h.exact_paths (all_paths (remove_at i hazards)),
)

unknowns-remove_at :
    (i : ℕ) (hazards : List PendingHazard) (hazard : PendingHazard)
    → get_elem? hazards i ≡ some hazard
    → unknowns (remove_at i hazards) + (if hazard.unknown_content_mutation then 1 else 0)
      ≡ unknowns hazards
unknowns-remove_at i [] hazard e = absurd (cc)
unknowns-remove_at zero (h ∷ hazards) hazard e = ground arith
unknowns-remove_at (suc i) (h ∷ hazards) hazard e =
    omega (arith, unknowns-remove_at i hazards hazard e)

pub clear-Outstanding :
    (i : ℕ) (hazard : PendingHazard) (pending : PendingRemote) (hazards : List PendingHazard)
    → Outstanding pending hazards
    → get_elem? hazards i ≡ some hazard
    → Outstanding (clear hazard pending) (remove_at i hazards)
unfolding clear
clear-Outstanding i hazard pending hazards o e =
    let paths = hazard.exact_paths in
    let there : (key : Text) → times key paths ≤ counted key pending.exact_paths =
      λ key. omega (arith, o.paths_counted key, times-all_paths-remove_at key i hazards hazard e) in
    record {
      unknown_counted = ground (arith, o.unknown_counted, unknowns-remove_at i hazards hazard e);
      paths_counted = λ path. omega (
        arith,
        counted-count_down_all path paths pending.exact_paths o.positive there,
        o.paths_counted path,
        times-all_paths-remove_at path i hazards hazard e,
      );
      positive = Positive-count_down_all paths pending.exact_paths o.positive;
    }
