-- ===== src/Sidecar/Remote/Pending/Conflicts.antt =====
-- A `PendingRemote` answers for the hazards that are outstanding.
use nvim_remote_mirror.Prelude.{
  ℕ, zero, suc, ◌+◌, ◌≤◌, ◌<◌, ◌≡◌, refl, sym, ap, ◌∙◌, Bool, true, false, not, ◌||◌, Option, none,
  some, List, [], ◌∷◌, ◌++◌, Text, any, list_eq, list_eq_refl, list_eq_comm, is_empty, ltb,
  if◌then◌else◌, length, u64_mod, arith, length-append,
}
use nvim_remote_mirror.Sidecar.Remote.Request.{
  PendingHazard, RequestInterest, has_content_interest, Json, ClientRequest, read,
  interest_for_request, conflicts_with_interest, member,
}
use nvim_remote_mirror.Sidecar.Remote.Pending.{
  Counts, PendingRemote, resumes_grep, lane_for_request, no_pending, contains_key, register, clear,
  pending_conflicts,
}
use nvim_remote_mirror.Sidecar.Remote.Queue.{get_elem?, remove_at}
use nvim_remote_mirror.Sidecar.Remote.Pending.Outstanding.{
  counted, times, Positive, contains_key-counted, all_paths, unknowns, Outstanding,
  register-Outstanding, clear-Outstanding,
}

any-times : (path : Text) (paths : List Text) → any (list_eq path) paths ≡ ltb 0 (times path paths)
any-times path [] = refl
any-times path (x ∷ paths) = ground (arith, any-times path paths)

any-append {ℓ} :
    {A : Type ℓ} (p : A → Bool) (xs ys : List A) → any p (xs ++ ys) ≡ any p xs || any p ys
any-append p [] ys = refl
any-append p (x ∷ xs) ys = ground (arith, any-append p xs ys)

any-false {ℓ} : {A : Type ℓ} (xs : List A) → any (λ x. false) xs ≡ false
any-false [] = refl
any-false (x ∷ xs) = any-false xs

any-cons :
    (x : Text) (xs ys : List Text)
    → any (λ y. member y (x ∷ xs)) ys ≡ member x ys || any (λ y. member y xs) ys
any-cons x xs [] = refl
any-cons x xs (y ∷ ys) = ground (arith, any-cons x xs ys, list_eq_comm x y)

-- Two lists have a path in common, looked for from either side.
any-member_comm : (xs ys : List Text) → any (λ x. member x ys) xs ≡ any (λ y. member y xs) ys
any-member_comm [] ys = sym (any-false ys)
any-member_comm (x ∷ xs) ys = ground (arith, any-cons x xs ys, any-member_comm xs ys)

contains_key-member :
    (pending : PendingRemote) (hazards : List PendingHazard) (path : Text)
    → Outstanding pending hazards
    → contains_key path pending.exact_paths ≡ member path (all_paths hazards)
contains_key-member pending hazards path o =
    contains_key-counted path pending.exact_paths o.positive
    ∙ ap (ltb 0) (o.paths_counted path)
    ∙ sym (any-times path (all_paths hazards))

any-contains_key :
    (pending : PendingRemote) (hazards : List PendingHazard) (paths : List Text)
    → Outstanding pending hazards
    → any (λ path. contains_key path pending.exact_paths) paths
      ≡ any (λ path. member path (all_paths hazards)) paths
any-contains_key pending hazards [] o = refl
any-contains_key pending hazards (path ∷ paths) o =
    ground
      (arith, contains_key-member pending hazards path o, any-contains_key pending hazards paths o)

-- Counts are empty just where no path is counted.
is_empty-counted :
    (counts : Counts) (paths : List Text)
    → Positive counts
    → ((path : Text) → counted path counts ≡ times path paths)
    → is_empty counts ≡ is_empty paths
is_empty-counted [] [] p h = refl
is_empty-counted [] (path ∷ paths) p h = absurd (ground (arith, h path, list_eq_refl path))
is_empty-counted ((key, count) ∷ counts) [] p h =
    absurd (ground (arith, h key, list_eq_refl key, p.0))
is_empty-counted ((key, count) ∷ counts) (path ∷ paths) p h = refl

any_unknown :
    (hazards : List PendingHazard)
    → any
        (λ (hazard : PendingHazard).
          hazard.unknown_content_mutation || not (is_empty hazard.exact_paths))
        hazards
      ≡ ltb 0 (unknowns hazards) || not (is_empty (all_paths hazards))
any_unknown [] = refl
any_unknown (hazard ∷ hazards) =
    elim hazard.exact_paths
      as (λ paths.
        (hazard.unknown_content_mutation || not (is_empty paths))
          || any
              (λ (hazard : PendingHazard).
                hazard.unknown_content_mutation || not (is_empty hazard.exact_paths))
              hazards
        ≡ ltb 0 ((if hazard.unknown_content_mutation then 1 else 0) + unknowns hazards)
          || not (is_empty (paths ++ all_paths hazards))) [
            | [] ↦ ground (arith, any_unknown hazards)
            | path ∷ paths ↦ ground arith
          ]

-- The answer for one hazard where the interest is in some paths.
any_known :
    (paths : List Text) (hazards : List PendingHazard)
    → any
        (λ (hazard : PendingHazard).
          hazard.unknown_content_mutation || any (λ path. member path paths) hazard.exact_paths)
        hazards
      ≡ ltb 0 (unknowns hazards) || any (λ path. member path paths) (all_paths hazards)
any_known paths [] = refl
any_known paths (hazard ∷ hazards) = ground (
  arith,
  any_known paths hazards,
  any-append (λ path. member path paths) hazard.exact_paths (all_paths hazards),
)

conflicts_unknown :
    (paths : List Text) (hazards : List PendingHazard)
    → any
        (λ hazard.
          conflicts_with_interest hazard (record { exact_paths = paths; unknown_content = true }))
        hazards
      ≡ any
          (λ (hazard : PendingHazard).
            hazard.unknown_content_mutation || not (is_empty hazard.exact_paths))
          hazards
unfolding conflicts_with_interest has_content_interest
conflicts_unknown paths [] = refl
conflicts_unknown paths (hazard ∷ hazards) = ground (arith, conflicts_unknown paths hazards)

conflicts_known :
    (path : Text) (paths : List Text) (hazards : List PendingHazard)
    → any
        (λ hazard.
          conflicts_with_interest hazard
            (record { exact_paths = path ∷ paths; unknown_content = false }))
        hazards
      ≡ any
          (λ (hazard : PendingHazard).
            hazard.unknown_content_mutation
            || any (λ p. member p (path ∷ paths)) hazard.exact_paths)
          hazards
unfolding conflicts_with_interest has_content_interest
conflicts_known path paths [] = refl
conflicts_known path paths (hazard ∷ hazards) = ground (arith, conflicts_known path paths hazards)

conflicts_nothing :
    (hazards : List PendingHazard)
    → any
        (λ hazard.
          conflicts_with_interest hazard (record { exact_paths = []; unknown_content = false }))
        hazards
      ≡ false
unfolding conflicts_with_interest has_content_interest
conflicts_nothing [] = refl
conflicts_nothing (hazard ∷ hazards) =
    ground (arith, conflicts_nothing hazards, any-false hazard.exact_paths)

conflicts_by :
    (unknown : Bool) (paths : List Text) (pending : PendingRemote) (hazards : List PendingHazard)
    → Outstanding pending hazards
    → pending_conflicts pending (record { exact_paths = paths; unknown_content = unknown })
      ≡ any
          (λ hazard.
            conflicts_with_interest hazard
              (record { exact_paths = paths; unknown_content = unknown }))
          hazards
unfolding pending_conflicts has_content_interest
conflicts_by true paths pending hazards o = ground (
  arith,
  conflicts_unknown paths hazards,
  any_unknown hazards,
  o.unknown_counted,
  is_empty-counted pending.exact_paths (all_paths hazards) o.positive o.paths_counted,
)
conflicts_by false [] pending hazards o = sym (conflicts_nothing hazards)
conflicts_by false (path ∷ paths) pending hazards o = ground (
  arith,
  conflicts_known path paths hazards,
  any_known (path ∷ paths) hazards,
  o.unknown_counted,
  any-contains_key pending hazards (path ∷ paths) o,
  any-member_comm (path ∷ paths) (all_paths hazards),
)

-- What the threads do to the pending hazards: a hazard is registered, or the one that stands at an
-- index of those outstanding is cleared.
pub data Change : Type 0 where
  registered : PendingHazard → Change
  cleared : ℕ → Change

pub record Tracked : Type 0 where
  pub pending : PendingRemote
  pub hazards : List PendingHazard

abbrev clear_found : ℕ → Option PendingHazard → Tracked → Tracked
unfolding clear
clear_found i none t = t
clear_found i (some hazard) t = record {
  pending = clear hazard t.pending;
  hazards = remove_at i t.hazards;
}

unfoldable pub track : Tracked → List Change → Tracked
unfolding register clear
track t [] = t
track t (registered hazard ∷ changes) =
    track (record { pending = register hazard t.pending; hazards = hazard ∷ t.hazards }) changes
track t (cleared i ∷ changes) = track (clear_found i (get_elem? t.hazards i) t) changes

-- All that the changes register.
abbrev pub registrations : List Change → List PendingHazard
registrations [] = []
registrations (registered hazard ∷ changes) = hazard ∷ registrations changes
registrations (cleared i ∷ changes) = registrations changes

abbrev weight : List PendingHazard → ℕ
weight hazards = length (all_paths hazards) + length hazards

weight-remove_at :
    (i : ℕ) (hazards : List PendingHazard) → weight (remove_at i hazards) ≤ weight hazards
weight-remove_at i [] = omega arith
weight-remove_at zero (hazard ∷ hazards) =
    omega (arith, length-append hazard.exact_paths (all_paths hazards))
weight-remove_at (suc i) (hazard ∷ hazards) = omega (
  arith,
  weight-remove_at i hazards,
  length-append hazard.exact_paths (all_paths hazards),
  length-append hazard.exact_paths (all_paths (remove_at i hazards)),
)

clear_found-Outstanding :
    (i : ℕ) (found : Option PendingHazard) (t : Tracked)
    → Outstanding t.pending t.hazards
    → get_elem? t.hazards i ≡ found
    → Outstanding (clear_found i found t).pending (clear_found i found t).hazards
      × (weight (clear_found i found t).hazards ≤ weight t.hazards)
unfolding clear_found
clear_found-Outstanding i none t o e = (o, omega arith)
clear_found-Outstanding i (some hazard) t o e =
    (clear-Outstanding i hazard t.pending t.hazards o e, weight-remove_at i t.hazards)

track-Outstanding :
    (t : Tracked) (changes : List Change)
    → Outstanding t.pending t.hazards
    → weight t.hazards + weight (registrations changes) + 1 < u64_mod
    → Outstanding (track t changes).pending (track t changes).hazards
unfolding track
track-Outstanding t [] o f = o
track-Outstanding t (registered hazard ∷ changes) o f =
    let heavier = length-append hazard.exact_paths (all_paths t.hazards) in
    let lighter = length-append hazard.exact_paths (all_paths (registrations changes)) in
    track-Outstanding (record { pending = register hazard t.pending; hazards = hazard ∷ t.hazards })
      changes (register-Outstanding hazard t.pending t.hazards o (omega (arith, heavier, lighter)))
      (omega (arith, heavier, lighter))
track-Outstanding t (cleared i ∷ changes) o f =
    let c = clear_found-Outstanding i (get_elem? t.hazards i) t o refl in
    track-Outstanding (clear_found i (get_elem? t.hazards i) t) changes c.0 (omega (arith, c.1))

abbrev pub untracked : Tracked
untracked = record { pending = no_pending; hazards = [] }

-- Where fewer hazards and paths are registered in all than a counter holds, the pending hazards
-- conflict with an interest just where one of those that are registered and not yet cleared does.
pub track-pending_conflicts :
    (changes : List Change) (interest : RequestInterest)
    → weight (registrations changes) + 1 < u64_mod
    → pending_conflicts (track untracked changes).pending interest
      ≡ any (λ hazard. conflicts_with_interest hazard interest) (track untracked changes).hazards
track-pending_conflicts changes interest f =
    conflicts_by interest.unknown_content interest.exact_paths _ _ (
      track-Outstanding untracked changes
        (record { unknown_counted = refl; paths_counted = λ path. refl; positive = tt })
        (omega (arith, f)))

-- Where fewer hazards and paths are registered in all than a counter holds, a request that is sent to
-- the read lane, and does not go on with a grep session, conflicts with none of the hazards that are
-- registered and not yet cleared.
pub lane_for_request-read :
    {j : Json} (changes : List Change) (request : ClientRequest j)
    → weight (registrations changes) + 1 < u64_mod
    → resumes_grep request ≡ false
    → lane_for_request request (track untracked changes).pending ≡ read
    → any
        (λ hazard. conflicts_with_interest hazard (interest_for_request j request))
        (track untracked changes).hazards
      ≡ false
unfolding lane_for_request
lane_for_request-read {j} changes request f g h =
    ground (arith, track-pending_conflicts changes (interest_for_request j request) f)
