-- ===== src/Sidecar/Remote/Queue/Drain.antt =====
-- What the loops of `drain_background_blocking` and `close_and_drain_background` drain and keep.
use nvim_remote_mirror.Prelude.{
  ℕ, ◌+◌, ◌≡◌, refl, Bool, true, not, ◌&&◌, List, [], ◌∷◌, ◌++◌, length, All, if◌then◌else◌,
  Bool-cases, inl, inr, arith,
}
use nvim_remote_mirror.Sidecar.Remote.Request.{
  Json, RemoteWork, RequestInterest, conflicts_with_interest, interest_for_request, blocks_later,
}
use nvim_remote_mirror.Sidecar.Remote.Queue.{is_interactive}
use nvim_remote_mirror.Sidecar.Remote.Queue.TryPush.{drain_before}
use nvim_remote_mirror.Sidecar.Remote.Queue.Drains.{partition_background}
use nvim_remote_mirror.Sidecar.Remote.Queue.Order.{
  interactive_of, background_of, occurrences, harmless, Unblocked,
}

module _ {j : Json} where
  abbrev drains : RequestInterest → RemoteWork j → Bool
  drains interest work =
      not (is_interactive work.priority) && conflicts_with_interest work.hazard interest

  abbrev pub drained_of : RequestInterest → List (RemoteWork j) → List (RemoteWork j)
  drained_of interest [] = []
  drained_of interest (work ∷ rest) =
      let later = drained_of interest rest in if drains interest work then work ∷ later else later

  abbrev pub kept_of : RequestInterest → List (RemoteWork j) → List (RemoteWork j)
  kept_of interest [] = []
  kept_of interest (work ∷ rest) =
      let later = kept_of interest rest in if drains interest work then later else work ∷ later

  pub drain_before-append :
      (interest : RequestInterest) (q : List (RemoteWork j)) (w : RemoteWork j)
      → drain_before interest (length q) (q ++ (w ∷ []))
        ≡ (drained_of interest q, kept_of interest q ++ (w ∷ []))
  unfolding drain_before
  drain_before-append interest [] w = refl
  drain_before-append interest (x ∷ q) w = elim (Bool-cases (drains interest x)) [
    | inl e ↦ rw (e, drain_before-append interest q w)
    | inr e ↦ rw (e, drain_before-append interest q w)
  ]

  pub interactive_of-kept_of :
      (interest : RequestInterest) (q : List (RemoteWork j))
      → interactive_of (kept_of interest q) ≡ interactive_of q
  interactive_of-kept_of interest [] = refl
  interactive_of-kept_of interest (x ∷ q) = ground (arith, interactive_of-kept_of interest q)

  pub length-background_of-kept_of :
      (interest : RequestInterest) (q : List (RemoteWork j))
      → length (background_of (kept_of interest q)) + length (drained_of interest q)
        ≡ length (background_of q)
  length-background_of-kept_of interest [] = omega arith
  length-background_of-kept_of interest (x ∷ q) =
      ground (arith, length-background_of-kept_of interest q)

  pub occurrences-kept_of :
      (id : ℕ) (interest : RequestInterest) (q : List (RemoteWork j))
      → occurrences id (kept_of interest q) + occurrences id (drained_of interest q)
        ≡ occurrences id q
  occurrences-kept_of id interest [] = omega arith
  occurrences-kept_of id interest (x ∷ q) = ground (arith, occurrences-kept_of id interest q)

  All-kept_of :
      (P : RemoteWork j → Type 0) (interest : RequestInterest) (q : List (RemoteWork j))
      → All P q
      → All P (kept_of interest q)
  All-kept_of P interest [] a = tt
  All-kept_of P interest (x ∷ q) a = elim (Bool-cases (drains interest x)) [
    | inl e ↦ rw e (All-kept_of P interest q a.1)
    | inr e ↦ rw e (a.0, All-kept_of P interest q a.1)
  ]

  pub Unblocked-kept_of :
      (interest : RequestInterest) (q : List (RemoteWork j))
      → Unblocked q
      → Unblocked (kept_of interest q)
  Unblocked-kept_of interest [] u = tt
  Unblocked-kept_of interest (x ∷ q) u = elim (Bool-cases (drains interest x)) [
    | inl e ↦ rw e (Unblocked-kept_of interest q u.1)
    | inr e ↦ rw e (
      All-kept_of (λ later. harmless x later ≡ true) interest q u.0,
      Unblocked-kept_of interest q u.1,
    )
  ]

  -- No work that is kept blocks the one for which the others were drained.
  pub kept_of-harmless :
      (w : RemoteWork j) (q : List (RemoteWork j))
      → All
          (λ (e : RemoteWork j). harmless e w ≡ true)
          (kept_of (interest_for_request j w.request) q)
  unfolding blocks_later
  kept_of-harmless w [] = tt
  kept_of-harmless w (x ∷ q) = elim (Bool-cases (drains (interest_for_request j w.request) x)) [
    | inl e ↦ rw e (kept_of-harmless w q)
    | inr e ↦ rw e (ground arith, kept_of-harmless w q)
  ]

  pub partition_background-interactive :
      (q : List (RemoteWork j)) → (partition_background q).1 ≡ interactive_of q
  unfolding partition_background
  partition_background-interactive [] = refl
  partition_background-interactive (x ∷ q) = ground (arith, partition_background-interactive q)

  pub partition_background-background :
      (q : List (RemoteWork j)) → (partition_background q).0 ≡ background_of q
  unfolding partition_background
  partition_background-background [] = refl
  partition_background-background (x ∷ q) = ground (arith, partition_background-background q)

  pub interactive_of_twice :
      (q : List (RemoteWork j)) → interactive_of (interactive_of q) ≡ interactive_of q
  interactive_of_twice [] = refl
  interactive_of_twice (x ∷ q) = ground (arith, interactive_of_twice q)

  pub background_of-interactive_of :
      (q : List (RemoteWork j)) → background_of (interactive_of q) ≡ []
  background_of-interactive_of [] = refl
  background_of-interactive_of (x ∷ q) = ground (arith, background_of-interactive_of q)

  pub occurrences_split :
      (id : ℕ) (q : List (RemoteWork j))
      → occurrences id (interactive_of q) + occurrences id (background_of q) ≡ occurrences id q
  occurrences_split id [] = omega arith
  occurrences_split id (x ∷ q) = ground (arith, occurrences_split id q)

  All-interactive_of :
      (P : RemoteWork j → Type 0) (q : List (RemoteWork j)) → All P q → All P (interactive_of q)
  All-interactive_of P [] a = tt
  All-interactive_of P (x ∷ q) a = elim (Bool-cases (is_interactive x.priority)) [
    | inl e ↦ rw e (a.0, All-interactive_of P q a.1)
    | inr e ↦ rw e (All-interactive_of P q a.1)
  ]

  pub Unblocked-interactive_of :
      (q : List (RemoteWork j)) → Unblocked q → Unblocked (interactive_of q)
  Unblocked-interactive_of [] u = tt
  Unblocked-interactive_of (x ∷ q) u = elim (Bool-cases (is_interactive x.priority)) [
    | inl e ↦ rw e (
      All-interactive_of (λ later. harmless x later ≡ true) q u.0,
      Unblocked-interactive_of q u.1,
    )
    | inr e ↦ rw e (Unblocked-interactive_of q u.1)
  ]
