-- ===== src/Protocol/Validate/Path.antt =====
-- `validate_workspace_path` accepts the canonical relative paths and no others.
use nvim_remote_mirror.Prelude.{
  ℕ, ◌≤◌, ◌≡◌, refl, ap, ◌≢◌, ◌↔◌, inl, inr, false, List, [], ◌∷◌, ◌++◌, Text, len, codes, contains,
  starts_with, split, any, is_empty, list_eq_iff, All, ok, ◌==◌, ◌||◌, ==_iff, Bool-cases, arith,
}
use nvim_remote_mirror.Protocol.Limits.{runtime_max_path_bytes}
use nvim_remote_mirror.Protocol.Validate.Fields.{is_bad_part, validate_workspace_path}

-- A name of a file or directory: not empty, not `.` or `..`, and with no NUL, `/` or `\`.
pub record IsComponent (part : Text) : Type 0 where
  pub nonempty : part ≢ []
  pub not_dot : part ≢ codes "."
  pub not_dot_dot : part ≢ codes ".."
  pub no_nul : contains 0 part ≡ false
  pub no_slash : contains b'/' part ≡ false
  pub no_backslash : contains 0x5c part ≡ false

-- The components joined by `/`.
abbrev pub join : Text → List Text → Text
join part [] = part
join part (next ∷ rest) = part ++ b'/' ∷ join next rest

-- The path is one component or more, joined by `/`, and not too long.
pub record IsCanonical (path : Text) : Type 0 where
  pub first : Text
  pub rest : List Text
  pub joined : path ≡ join first rest
  pub components : IsComponent first × All IsComponent rest
  pub short : len path ≤ runtime_max_path_bytes

-- A text without a character.
abbrev Lacks : ℕ → Text → Type 0
Lacks c s = contains c s ≡ false

contains-append : (c : ℕ) (s t : Text) → contains c (s ++ t) ≡ (contains c s || contains c t)
contains-append c [] t = refl
contains-append c (x ∷ s) t = ground (arith, contains-append c s t)

split-join :
    (part : Text) (rest : List Text)
    → Lacks b'/' part
    → All (Lacks b'/') rest
    → split b'/' (join part rest) ≡ part ∷ rest
unfolding split
split-join [] [] h k = refl
split-join [] (next ∷ rest) h k = rw (split-join next rest k.0 k.1)
split-join (c ∷ part) [] h k = ground (arith, split-join part [] (ground arith) k)
split-join (c ∷ part) (next ∷ rest) h k =
    ground (arith, split-join part (next ∷ rest) (ground arith) k)

-- The pieces of a text, which joined give it back.
record Pieces (path : Text) : Type 0 where
  first : Text
  rest : List Text
  split_eq : split b'/' path ≡ first ∷ rest
  joined : path ≡ join first rest
  no_slash : Lacks b'/' first × All (Lacks b'/') rest

Pieces-slash : (c : ℕ) (path : Text) → c ≡ b'/' → Pieces path → Pieces (c ∷ path)
unfolding split
Pieces-slash c path e p = record {
  first = [];
  rest = p.first ∷ p.rest;
  split_eq = ground (arith, p.split_eq);
  joined = ground (arith, p.joined);
  no_slash = (refl, p.no_slash);
}

join-cons : (c : ℕ) (part : Text) (rest : List Text) → join (c ∷ part) rest ≡ c ∷ join part rest
join-cons c part [] = refl
join-cons c part (next ∷ rest) = refl

Pieces-other : (c : ℕ) (path : Text) → (c == b'/') ≡ false → Pieces path → Pieces (c ∷ path)
unfolding split
Pieces-other c path e p = record {
  first = c ∷ p.first;
  rest = p.rest;
  split_eq = ground (arith, p.split_eq);
  joined = rw (join-cons c p.first p.rest) (ap (◌∷◌ c) p.joined);
  no_slash = (ground (arith, p.no_slash.0), p.no_slash.1);
}

pieces : (path : Text) → Pieces path
unfolding split
pieces [] = record { first = []; rest = []; split_eq = refl; joined = refl; no_slash = (refl, tt) }
pieces (c ∷ path) = elim (Bool-cases (c == b'/')) [
  | inl e ↦ Pieces-slash c path ((==_iff c b'/').0 e) (pieces path)
  | inr e ↦ Pieces-other c path e (pieces path)
]

join-Lacks :
    (c : ℕ) (part : Text) (rest : List Text)
    → Lacks c (join part rest)
    → Lacks c part × All (Lacks c) rest
join-Lacks c part [] h = (h, tt)
join-Lacks c part (next ∷ rest) h =
    let e = contains-append c part (b'/' ∷ join next rest) in
    let tail = join-Lacks c next rest (ground (arith, e)) in (ground (arith, e), tail)

Lacks-join :
    (c : ℕ) (part : Text) (rest : List Text)
    → c ≢ b'/'
    → Lacks c part
    → All (Lacks c) rest
    → Lacks c (join part rest)
Lacks-join c part [] n h k = h
Lacks-join c part (next ∷ rest) n h k =
    ground (arith, contains-append c part (b'/' ∷ join next rest), Lacks-join c next rest n k.0 k.1)

-- A piece that passes the tests is a component, and conversely.
IsComponent-of :
    (part : Text)
    → is_bad_part part ≡ false
    → Lacks 0 part
    → Lacks b'/' part
    → Lacks 0x5c part
    → IsComponent part
unfolding is_bad_part
IsComponent-of part bad nul slash backslash = record {
  nonempty = λ e. ground arith;
  not_dot = λ e. ground (arith, list_eq_iff part (codes "."));
  not_dot_dot = λ e. ground (arith, list_eq_iff part (codes ".."));
  no_nul = nul;
  no_slash = slash;
  no_backslash = backslash;
}

bad_part_false : (part : Text) → IsComponent part → is_bad_part part ≡ false
unfolding is_bad_part
bad_part_false [] v = absurd (v.nonempty refl)
bad_part_false (c ∷ part) v = ground (
  arith,
  list_eq_iff (c ∷ part) (codes "."),
  list_eq_iff (c ∷ part) (codes ".."),
  v.not_dot,
  v.not_dot_dot,
)

components_of :
    (rest : List Text)
    → any is_bad_part rest ≡ false
    → All (Lacks 0) rest
    → All (Lacks b'/') rest
    → All (Lacks 0x5c) rest
    → All IsComponent rest
components_of [] bad nul slash backslash = tt
components_of (part ∷ rest) bad nul slash backslash = (
  IsComponent-of part (ground arith) nul.0 slash.0 backslash.0,
  components_of rest (ground arith) nul.1 slash.1 backslash.1,
)

bad_parts_false : (rest : List Text) → All IsComponent rest → any is_bad_part rest ≡ false
bad_parts_false [] v = refl
bad_parts_false (part ∷ rest) v = ground (arith, bad_part_false part v.0, bad_parts_false rest v.1)

module _ (c : ℕ) (lacks : (part : Text) → IsComponent part → Lacks c part) where
  All-Lacks : (rest : List Text) → All IsComponent rest → All (Lacks c) rest
  All-Lacks [] v = tt
  All-Lacks (part ∷ rest) v = (lacks part v.0, All-Lacks rest v.1)

-- What the tests of `validate_workspace_path` say when it accepts.
accepted_tests :
    (path : Text)
    → validate_workspace_path path ≡ ok tt
    → (len path ≤ runtime_max_path_bytes)
      × Lacks 0 path
      × Lacks 0x5c path
      × (any is_bad_part (split b'/' path) ≡ false)
unfolding validate_workspace_path
accepted_tests path h = (ground arith, ground arith, ground arith, ground arith)

first_good :
    (path : Text) (p : Pieces path)
    → any is_bad_part (split b'/' path) ≡ false
    → (is_bad_part p.first ≡ false) × (any is_bad_part p.rest ≡ false)
first_good path p h =
    let e : any is_bad_part (p.first ∷ p.rest) ≡ false = rw p.split_eq at h in
    (ground (arith, e), ground (arith, e))

accepted-IsCanonical : (path : Text) → validate_workspace_path path ≡ ok tt → IsCanonical path
accepted-IsCanonical path h =
    let (short, nul, backslash, good) = accepted_tests path h in
    let p = pieces path in
    let (bad, bads) = first_good path p good in
    let (nul₀, nuls) = join-Lacks 0 p.first p.rest (rw p.joined at nul) in
    let (back₀, backs) = join-Lacks 0x5c p.first p.rest (rw p.joined at backslash) in
    record {
      first = p.first;
      rest = p.rest;
      joined = p.joined;
      components = (
        IsComponent-of p.first bad nul₀ p.no_slash.0 back₀,
        components_of p.rest bads nuls p.no_slash.1 backs,
      );
      short = short;
    }

join_start :
    (first : Text) (rest : List Text)
    → first ≢ []
    → Lacks b'/' first
    → (starts_with b'/' (join first rest) ≡ false) × (is_empty (join first rest) ≡ false)
join_start [] rest n h = absurd (n refl)
join_start (c ∷ first) rest n h = rw (join-cons c first rest) (ground arith, refl)

-- The tests pass on a canonical path.
module _ (path first : Text) (rest : List Text) where
  canonical_tests :
      path ≡ join first rest
      → IsComponent first
      → All IsComponent rest
      → Lacks 0 path
        × Lacks 0x5c path
        × (any is_bad_part (split b'/' path) ≡ false)
        × (starts_with b'/' path ≡ false)
        × (is_empty path ≡ false)
  canonical_tests e v vs =
      let slashes = All-Lacks b'/' (λ part w. w.no_slash) rest vs in
      let start = join_start first rest v.nonempty v.no_slash in
      rw e (
        Lacks-join 0 first rest (omega arith) v.no_nul (All-Lacks 0 (λ part w. w.no_nul) rest vs),
        Lacks-join 0x5c first rest (omega arith) v.no_backslash
            (All-Lacks 0x5c (λ part w. w.no_backslash) rest vs),
        rw (split-join first rest v.no_slash slashes) (bad_parts_false (first ∷ rest) (v, vs)),
        start.0,
        start.1,
      )

starts_with-contains : (c : ℕ) (s : Text) → contains c s ≡ false → starts_with c s ≡ false
starts_with-contains c [] h = refl
starts_with-contains c (x ∷ s) h = ground arith

IsCanonical-accepted : (path : Text) → IsCanonical path → validate_workspace_path path ≡ ok tt
unfolding validate_workspace_path
IsCanonical-accepted path v =
    let t = canonical_tests path v.first v.rest v.joined v.components.0 v.components.1 in
    let b = starts_with-contains 0x5c path t.1 in ground (arith, t, b, v.short)

-- A workspace path is accepted exactly when it is canonical: one component or more joined by `/`,
-- none of them empty, `.` or `..`, none with a NUL, a slash or a backslash, and no more than
-- `RUNTIME_MAX_PATH_BYTES` bytes in all.
pub validate_workspace_path-IsCanonical :
    (path : Text) → (validate_workspace_path path ≡ ok tt) ↔ IsCanonical path
validate_workspace_path-IsCanonical path = (accepted-IsCanonical path, IsCanonical-accepted path)
