-- ===== src/Sidecar/Backoff/Doubling.antt =====
-- The time that a lane keeps away doubles with each failure in a row, up to a minute.
use nvim_remote_mirror.Prelude.{
  ℕ, zero, suc, ◌+◌, ◌-◌, ◌*◌, ◌≤◌, ◌<◌, ◌≡◌, refl, sym, ◌∙◌, ap, Bool, true, false, Option, none,
  some, List, [], ◌∷◌, Text, leb, if◌then◌else◌, length, u32_mod, u64_mod, Bool-cases, inl, inr,
  arith,
}
use nvim_remote_mirror.Sidecar.Backoff.{
  AgentBackoffLane, read, write, min, max, saturating_inc, shifted_one,
  remote_unavailable_backoff_ms, RemoteBackoffSlot, RemoteBackoffState, no_failure, no_backoff,
  slot, slot_mut, mark_slot, mark_unavailable, clear_lane, clear_all, slot_backoff, lane_backoff,
}

unfoldable pub twice : ℕ → ℕ
twice n = if leb (2 * n) 60000 then 2 * n else 60000

twice_max : twice 60000 ≡ 60000
unfolding twice
twice_max = refl

-- Two seconds for the first failure, and twice the time up to a minute for each further one.
unfoldable pub doubled : ℕ → ℕ
unfolding twice
doubled zero = 0
doubled (suc zero) = 2000
doubled (suc (suc n)) = twice (doubled (suc n))

shifted_one_pos : (n : ℕ) → 1 ≤ shifted_one n
shifted_one_pos zero = omega arith
shifted_one_pos (suc n) = omega (arith, shifted_one_pos n)

shifted_one_ge : (n : ℕ) → 5 ≤ n → 32 ≤ shifted_one n
shifted_one_ge zero h = absurd (omega arith)
shifted_one_ge (suc zero) h = absurd (omega arith)
shifted_one_ge (suc (suc zero)) h = absurd (omega arith)
shifted_one_ge (suc (suc (suc zero))) h = absurd (omega arith)
shifted_one_ge (suc (suc (suc (suc zero)))) h = absurd (omega arith)
shifted_one_ge (suc (suc (suc (suc (suc n))))) h = omega (arith, shifted_one_pos n)

doubled_max : (n : ℕ) → doubled (suc (suc (suc (suc (suc (suc n)))))) ≡ 60000
unfolding doubled
doubled_max zero = unfold twice in refl
doubled_max (suc n) = ap twice (doubled_max n) ∙ twice_max

remote_unavailable_backoff_ms-max : (n : ℕ) → 6 ≤ n → remote_unavailable_backoff_ms n ≡ 60000
unfolding remote_unavailable_backoff_ms
remote_unavailable_backoff_ms-max n h =
    ground (arith, shifted_one_ge (min (n - 1) 20) (ground arith))

remote_unavailable_backoff_ms-doubled : (n : ℕ) → remote_unavailable_backoff_ms n ≡ doubled n
unfolding remote_unavailable_backoff_ms doubled twice
remote_unavailable_backoff_ms-doubled zero = refl
remote_unavailable_backoff_ms-doubled (suc zero) = refl
remote_unavailable_backoff_ms-doubled (suc (suc zero)) = refl
remote_unavailable_backoff_ms-doubled (suc (suc (suc zero))) = refl
remote_unavailable_backoff_ms-doubled (suc (suc (suc (suc zero)))) = refl
remote_unavailable_backoff_ms-doubled (suc (suc (suc (suc (suc zero))))) = refl
remote_unavailable_backoff_ms-doubled (suc (suc (suc (suc (suc (suc n)))))) =
    remote_unavailable_backoff_ms-max (suc (suc (suc (suc (suc (suc n)))))) (omega arith)
    ∙ sym (doubled_max n)

abbrev pub same_lane : AgentBackoffLane → AgentBackoffLane → Bool
same_lane read read = true
same_lane write write = true
same_lane _ _ = false

module _ (Failure : Type 0) where
  -- What happens to the lanes, the latest first.
  pub data Event : Type 0 where
    marked : AgentBackoffLane → ℕ → Text → Option Failure → Event
    cleared : AgentBackoffLane → Event
    all_cleared : Event

  unfoldable pub run : List Event → RemoteBackoffState Failure
  unfolding mark_unavailable clear_lane clear_all
  run [] = no_backoff Failure
  run (marked lane now error failure ∷ earlier) =
      mark_unavailable lane now error failure (run earlier)
  run (cleared lane ∷ earlier) = clear_lane lane (run earlier)
  run (all_cleared ∷ earlier) = clear_all (run earlier)

  -- The last failure of a lane, and how many there were since it was last cleared.
  pub record Failed : Type 0 where
    pub count : ℕ
    pub at : ℕ
    pub error : Text
    pub failure : Option Failure

module _ {Failure : Type 0} where
  abbrev count_of : Option (Failed Failure) → ℕ
  count_of none = 0
  count_of (some failed) = failed.count

  abbrev pub last_failure : AgentBackoffLane → List (Event Failure) → Option (Failed Failure)
  last_failure lane [] = none
  last_failure lane (marked other now error failure ∷ earlier) =
      let before = last_failure lane earlier in
      if same_lane lane other
      then some
          (record { count = suc (count_of before); at = now; error = error; failure = failure })
      else before
  last_failure lane (cleared other ∷ earlier) =
      let before = last_failure lane earlier in if same_lane lane other then none else before
  last_failure lane (all_cleared ∷ earlier) = none

  -- Until when the lane keeps away, by its last failure.
  abbrev pub keeps_away : ℕ → Option (Failed Failure) → Option (ℕ × Text × Option Failure)
  keeps_away now none = none
  keeps_away now (some failed) =
      let until = failed.at + doubled failed.count in
      if leb until now
      then none
      else some (min (until - now) (u64_mod - 1), failed.error, failed.failure)

  slot_of : Option (Failed Failure) → RemoteBackoffSlot Failure
  slot_of none = no_failure Failure
  slot_of (some failed) = record {
    unavailable_until = some (failed.at + doubled failed.count);
    last_remote_error = some failed.error;
    trusted_failure = failed.failure;
    last_remote_error_at = some failed.at;
    consecutive_failures = failed.count;
  }

  consecutive_failures-slot_of :
      (failed : Option (Failed Failure)) → (slot_of failed).consecutive_failures ≡ count_of failed
  unfolding slot_of
  consecutive_failures-slot_of none = refl
  consecutive_failures-slot_of (some failed) = refl

  mark_slot-slot_of :
      (now : ℕ) (error : Text) (failure : Option Failure) (s : RemoteBackoffSlot Failure)
      → s.consecutive_failures + 1 < u32_mod
      → mark_slot now error failure s
        ≡ slot_of (
            some (record {
              count = suc s.consecutive_failures;
              at = now;
              error = error;
              failure = failure;
            }))
  unfolding mark_slot slot_of
  mark_slot-slot_of now error failure s h =
      let next : max (saturating_inc s.consecutive_failures) 1 ≡ suc s.consecutive_failures =
        ground arith in
      rw (next, remote_unavailable_backoff_ms-doubled (suc s.consecutive_failures)) refl

  -- A lane's slot after what is done to the lanes.
  slot-slot_mut :
      (lane other : AgentBackoffLane)
      (change : RemoteBackoffSlot Failure → RemoteBackoffSlot Failure)
      (state : RemoteBackoffState Failure)
      → slot lane (slot_mut other change state)
        ≡ (if same_lane lane other then change (slot lane state) else slot lane state)
  unfolding slot slot_mut
  slot-slot_mut read read change state = refl
  slot-slot_mut read write change state = refl
  slot-slot_mut write read change state = refl
  slot-slot_mut write write change state = refl

  slot-clear_all :
      (lane : AgentBackoffLane) (state : RemoteBackoffState Failure)
      → slot lane (clear_all state) ≡ no_failure Failure
  unfolding slot clear_all clear_lane slot_mut
  slot-clear_all read state = refl
  slot-clear_all write state = refl

  -- The slot of each lane tells its last failure.
  abbrev Tells : AgentBackoffLane → List (Event Failure) → Type 0
  Tells lane events =
      (slot lane (run Failure events) ≡ slot_of (last_failure lane events))
      × (count_of (last_failure lane events) ≤ length events)

  marked-Tells :
      (lane other : AgentBackoffLane) (now : ℕ) (error : Text) (failure : Option Failure)
      (earlier : List (Event Failure))
      → length earlier + 1 < u32_mod
      → Tells lane earlier
      → Tells lane (marked other now error failure ∷ earlier)
  unfolding run mark_unavailable
  marked-Tells lane other now error failure earlier h (t, c) =
      let s = slot lane (run Failure earlier) in
      let counted : s.consecutive_failures ≡ count_of (last_failure lane earlier) =
        ap (λ (s : RemoteBackoffSlot Failure). s.consecutive_failures) t
        ∙ consecutive_failures-slot_of (last_failure lane earlier) in
      let there = slot-slot_mut lane other (mark_slot now error failure) (run Failure earlier) in
      elim (Bool-cases (same_lane lane other)) [
        | inl e ↦
            rw (there, e)
              (
                mark_slot-slot_of now error failure s (omega (arith, counted))
                    ∙ ap
                        (λ n. slot_of (
                          some
                            (record { count = suc n; at = now; error = error; failure = failure })))
                        counted,
                omega arith,
              )
        | inr e ↦ rw (there, e) (t, omega arith)
      ]

  cleared-Tells :
      (lane other : AgentBackoffLane) (earlier : List (Event Failure))
      → Tells lane earlier
      → Tells lane (cleared other ∷ earlier)
  unfolding run clear_lane slot_of
  cleared-Tells lane other earlier (t, c) =
      let there = slot-slot_mut lane other (λ slot. no_failure Failure) (run Failure earlier) in
      elim (Bool-cases (same_lane lane other)) [
        | inl e ↦ rw (there, e) (refl, omega arith)
        | inr e ↦ rw (there, e) (t, omega arith)
      ]

  run-Tells :
      (lane : AgentBackoffLane) (events : List (Event Failure))
      → length events < u32_mod
      → Tells lane events
  unfolding run slot_of slot
  run-Tells read [] h = (refl, omega arith)
  run-Tells write [] h = (refl, omega arith)
  run-Tells lane (marked other now error failure ∷ earlier) h =
      marked-Tells lane other now error failure earlier (omega arith)
        (run-Tells lane earlier (omega arith))
  run-Tells lane (cleared other ∷ earlier) h =
      cleared-Tells lane other earlier (run-Tells lane earlier (omega arith))
  run-Tells lane (all_cleared ∷ earlier) h =
      (slot-clear_all lane (run Failure earlier), omega arith)

  slot_backoff-slot_of :
      (now : ℕ) (failed : Option (Failed Failure))
      → slot_backoff now (slot_of failed) ≡ keeps_away now failed
  unfolding slot_backoff slot_of
  slot_backoff-slot_of now none = refl
  slot_backoff-slot_of now (some failed) = refl

  -- Whatever happens to the lanes, fewer than 2^32 times, a lane keeps away from the remote agent by its
  -- own last failure and by the number of its own failures since it was last cleared: 2 seconds from
  -- a first failure, twice as long with each further one, and never longer than a minute.
  pub lane_backoff-keeps_away :
      (lane : AgentBackoffLane) (now : ℕ) (events : List (Event Failure))
      → length events < u32_mod
      → lane_backoff lane now (run Failure events) ≡ keeps_away now (last_failure lane events)
  unfolding lane_backoff
  lane_backoff-keeps_away lane now events h =
      ap (slot_backoff now) (run-Tells lane events h).0
      ∙ slot_backoff-slot_of now (last_failure lane events)
