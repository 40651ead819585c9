-- ===== src/Sidecar/Remote/Queue/Order.antt =====
-- The works of a queue by their priority, and queues in which no background work stands in front of
-- an interactive one that it blocks.
use nvim_remote_mirror.Prelude.{
  ℕ, zero, suc, ◌+◌, ◌≡◌, refl, subst, Bool, true, false, not, ◌||◌, some, List, [], ◌∷◌, ◌++◌,
  length, All, ◌==◌, if◌then◌else◌, arith,
}
use nvim_remote_mirror.Sidecar.Remote.Request.{Json, RemoteWork, blocks_later}
use nvim_remote_mirror.Sidecar.Remote.Queue.{is_interactive, get_elem?, remove_at}

module _ {j : Json} where
  abbrev pub interactive_of : List (RemoteWork j) → List (RemoteWork j)
  interactive_of [] = []
  interactive_of (work ∷ rest) =
      if is_interactive work.priority then work ∷ interactive_of rest else interactive_of rest

  abbrev pub background_of : List (RemoteWork j) → List (RemoteWork j)
  background_of [] = []
  background_of (work ∷ rest) =
      if is_interactive work.priority then background_of rest else work ∷ background_of rest

  -- How many works of the request `id`.
  abbrev pub occurrences : ℕ → List (RemoteWork j) → ℕ
  occurrences id [] = 0
  occurrences id (work ∷ rest) = (if work.request.id == id then 1 else 0) + occurrences id rest

  abbrev pub harmless : RemoteWork j → RemoteWork j → Bool
  harmless work later =
      is_interactive work.priority
      || (not (is_interactive later.priority) || not (blocks_later j work later))

  abbrev pub Unblocked : List (RemoteWork j) → Type 0
  Unblocked [] = Unit
  Unblocked (work ∷ rest) = All (λ later. harmless work later ≡ true) rest × Unblocked rest

  pub interactive_of-append :
      (xs ys : List (RemoteWork j))
      → interactive_of (xs ++ ys) ≡ interactive_of xs ++ interactive_of ys
  interactive_of-append [] ys = refl
  interactive_of-append (x ∷ xs) ys = ground (arith, interactive_of-append xs ys)

  pub background_of-append :
      (xs ys : List (RemoteWork j))
      → background_of (xs ++ ys) ≡ background_of xs ++ background_of ys
  background_of-append [] ys = refl
  background_of-append (x ∷ xs) ys = ground (arith, background_of-append xs ys)

  pub occurrences-append :
      (id : ℕ) (xs ys : List (RemoteWork j))
      → occurrences id (xs ++ ys) ≡ occurrences id xs + occurrences id ys
  occurrences-append id [] ys = omega arith
  occurrences-append id (x ∷ xs) ys = ground (arith, occurrences-append id xs ys)

  -- What is taken out at an index is in the queue once less.
  pub length-interactive_of-remove_at :
      (i : ℕ) (q : List (RemoteWork j)) (w : RemoteWork j)
      → get_elem? q i ≡ some w
      → length (interactive_of (remove_at i q)) + (if is_interactive w.priority then 1 else 0)
        ≡ length (interactive_of q)
  length-interactive_of-remove_at i [] w h = cc
  length-interactive_of-remove_at zero (x ∷ q) w h = ground arith
  length-interactive_of-remove_at (suc i) (x ∷ q) w h =
      ground (arith, length-interactive_of-remove_at i q w h)

  pub length-background_of-remove_at :
      (i : ℕ) (q : List (RemoteWork j)) (w : RemoteWork j)
      → get_elem? q i ≡ some w
      → length (background_of (remove_at i q)) + (if is_interactive w.priority then 0 else 1)
        ≡ length (background_of q)
  length-background_of-remove_at i [] w h = cc
  length-background_of-remove_at zero (x ∷ q) w h = ground arith
  length-background_of-remove_at (suc i) (x ∷ q) w h =
      ground (arith, length-background_of-remove_at i q w h)

  pub occurrences-remove_at :
      (id i : ℕ) (q : List (RemoteWork j)) (w : RemoteWork j)
      → get_elem? q i ≡ some w
      → occurrences id (remove_at i q) + (if w.request.id == id then 1 else 0) ≡ occurrences id q
  occurrences-remove_at id i [] w h = cc
  occurrences-remove_at id zero (x ∷ q) w h = ground arith
  occurrences-remove_at id (suc i) (x ∷ q) w h = ground (arith, occurrences-remove_at id i q w h)

  All-remove_at :
      (P : RemoteWork j → Type 0) (i : ℕ) (q : List (RemoteWork j))
      → All P q
      → All P (remove_at i q)
  All-remove_at P i [] h = tt
  All-remove_at P zero (x ∷ q) h = h.1
  All-remove_at P (suc i) (x ∷ q) h = (h.0, All-remove_at P i q h.1)

  All-get :
      (P : RemoteWork j → Type 0) (i : ℕ) (q : List (RemoteWork j)) (w : RemoteWork j)
      → All P q
      → get_elem? q i ≡ some w
      → P w
  All-get P i [] w a h = absurd (cc)
  All-get P zero (x ∷ q) w a h = let e : x ≡ w = cc in subst P e a.0
  All-get P (suc i) (x ∷ q) w a h = All-get P i q w a.1 h

  pub Unblocked-remove_at :
      (i : ℕ) (q : List (RemoteWork j)) → Unblocked q → Unblocked (remove_at i q)
  Unblocked-remove_at i [] h = tt
  Unblocked-remove_at zero (x ∷ q) h = h.1
  Unblocked-remove_at (suc i) (x ∷ q) h =
      (All-remove_at (λ later. harmless x later ≡ true) i q h.0, Unblocked-remove_at i q h.1)

  All-append :
      (P : RemoteWork j → Type 0) (xs : List (RemoteWork j)) (w : RemoteWork j)
      → All P xs
      → P w
      → All P (xs ++ (w ∷ []))
  All-append P [] w a p = (p, tt)
  All-append P (x ∷ xs) w a p = (a.0, All-append P xs w a.1 p)

  -- A work at the end that no work in the queue blocks.
  pub Unblocked-append :
      (q : List (RemoteWork j)) (w : RemoteWork j)
      → Unblocked q
      → All (λ (e : RemoteWork j). harmless e w ≡ true) q
      → Unblocked (q ++ (w ∷ []))
  Unblocked-append [] w u a = (tt, tt)
  Unblocked-append (x ∷ q) w u a =
      (All-append (λ later. harmless x later ≡ true) q w u.0 a.0, Unblocked-append q w u.1 a.1)

  pub harmless_background :
      (q : List (RemoteWork j)) (w : RemoteWork j)
      → is_interactive w.priority ≡ false
      → All (λ (e : RemoteWork j). harmless e w ≡ true) q
  harmless_background [] w h = tt
  harmless_background (x ∷ q) w h = (ground arith, harmless_background q w h)
