-- ===== src/Sidecar/Backoff.antt =====
-- `RemoteBackoffState` of crates/nrm-sidecar/src/main.rs: how long a lane keeps away from a remote
-- agent that failed. Times are milliseconds, and the present one is an argument.
pub mod Doubling
mod Tests
use nvim_remote_mirror.Prelude.{
  ℕ, zero, suc, ◌+◌, ◌-◌, ◌*◌, Bool, true, false, Option, none, some, List, [], ◌∷◌, Text, codes,
  leb, ◌==◌, if◌then◌else◌, u32_mod, u64_mod,
}

abbrev pub remote_unavailable_backoff_base_ms : ℕ
remote_unavailable_backoff_base_ms = 2000

abbrev pub remote_unavailable_backoff_max_ms : ℕ
remote_unavailable_backoff_max_ms = 60000

pub data AgentBackoffLane : Type 0 where
  read : AgentBackoffLane
  write : AgentBackoffLane

-- `saturating_add(1)` on 32 bits
abbrev pub saturating_inc : ℕ → ℕ
saturating_inc n = if leb (u32_mod - 1) n then u32_mod - 1 else n + 1

abbrev pub min : ℕ → ℕ → ℕ
min m n = if leb m n then m else n

abbrev pub max : ℕ → ℕ → ℕ
max m n = if leb m n then n else m

-- `1u64.checked_shl(exponent)`, which is `None` from 64 on
abbrev pub shifted_one : ℕ → ℕ
shifted_one zero = 1
shifted_one (suc n) = 2 * shifted_one n

-- `saturating_mul`
abbrev saturating_mul : ℕ → ℕ → ℕ
saturating_mul m n = if leb u64_mod (m * n) then u64_mod - 1 else m * n

unfoldable pub remote_unavailable_backoff_ms : ℕ → ℕ
remote_unavailable_backoff_ms consecutive_failures =
    let exponent = min (consecutive_failures - 1) 20 in
    let multiplier = if leb 64 exponent then u64_mod - 1 else shifted_one exponent in
    if consecutive_failures == 0
    then 0
    else min (saturating_mul remote_unavailable_backoff_base_ms multiplier)
        remote_unavailable_backoff_max_ms

module _ (Failure : Type 0) where
  pub record RemoteBackoffSlot : Type 0 where
    pub unavailable_until : Option ℕ
    pub last_remote_error : Option Text
    pub trusted_failure : Option Failure
    pub last_remote_error_at : Option ℕ
    pub consecutive_failures : ℕ

  pub record RemoteBackoffState : Type 0 where
    pub read_slot : RemoteBackoffSlot
    pub write_slot : RemoteBackoffSlot

  abbrev pub no_failure : RemoteBackoffSlot
  no_failure = record {
    unavailable_until = none;
    last_remote_error = none;
    trusted_failure = none;
    last_remote_error_at = none;
    consecutive_failures = 0;
  }

  abbrev pub no_backoff : RemoteBackoffState
  no_backoff = record { read_slot = no_failure; write_slot = no_failure }

module _ {Failure : Type 0} where
  unfoldable pub slot : AgentBackoffLane → RemoteBackoffState Failure → RemoteBackoffSlot Failure
  slot read state = state.read_slot
  slot write state = state.write_slot

  -- `slot_mut`: the lane's slot with what is done to it.
  unfoldable pub slot_mut :
      AgentBackoffLane
      → (RemoteBackoffSlot Failure → RemoteBackoffSlot Failure)
      → RemoteBackoffState Failure
      → RemoteBackoffState Failure
  slot_mut read change state = record state { read_slot = change state.read_slot }
  slot_mut write change state = record state { write_slot = change state.write_slot }

  unfoldable pub mark_slot :
      ℕ → Text → Option Failure → RemoteBackoffSlot Failure → RemoteBackoffSlot Failure
  unfolding remote_unavailable_backoff_ms
  mark_slot now error failure slot =
      let failures = max (saturating_inc slot.consecutive_failures) 1 in
      record {
        unavailable_until = some (now + remote_unavailable_backoff_ms failures);
        last_remote_error = some error;
        trusted_failure = failure;
        last_remote_error_at = some now;
        consecutive_failures = failures;
      }

  unfoldable pub mark_unavailable :
      AgentBackoffLane
      → ℕ
      → Text
      → Option Failure
      → RemoteBackoffState Failure
      → RemoteBackoffState Failure
  unfolding slot_mut mark_slot
  mark_unavailable lane now error failure = slot_mut lane (mark_slot now error failure)

  unfoldable pub clear_lane :
      AgentBackoffLane → RemoteBackoffState Failure → RemoteBackoffState Failure
  unfolding slot_mut
  clear_lane lane = slot_mut lane (λ slot. no_failure Failure)

  unfoldable pub clear_all : RemoteBackoffState Failure → RemoteBackoffState Failure
  unfolding clear_lane
  clear_all state = clear_lane write (clear_lane read state)

  -- How long the lane still keeps away, and why.
  unfoldable pub slot_backoff : ℕ → RemoteBackoffSlot Failure → Option (ℕ × Text × Option Failure)
  slot_backoff now slot = elim slot.unavailable_until [
    | none ↦ none
    | some until ↦
        if leb until now
        then none
        else some (
          min (until - now) (u64_mod - 1),
          elim slot.last_remote_error [
            | none ↦ codes "last remote attempt failed"
            | some error ↦ error
          ],
          slot.trusted_failure,
        )
  ]

  unfoldable pub lane_backoff :
      AgentBackoffLane → ℕ → RemoteBackoffState Failure → Option (ℕ × Text × Option Failure)
  unfolding slot slot_backoff
  lane_backoff lane now state = slot_backoff now (slot lane state)
