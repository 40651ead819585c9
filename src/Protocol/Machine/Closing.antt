-- ===== src/Protocol/Machine/Closing.antt =====
-- A closed stream takes nothing more.
use nvim_remote_mirror.Prelude.{◌≡◌, refl, subst, ◌≢◌, true, [], ◌∷◌, Result, ok, err, panic}
use nvim_remote_mirror.Protocol.Capability.{CapabilitySet}
use nvim_remote_mirror.Protocol.Message.{RuntimeMessage, error}
use nvim_remote_mirror.Protocol.Errors.{RuntimeStateError}
use nvim_remote_mirror.Protocol.Phase.{RuntimePhase, closed}
use nvim_remote_mirror.Protocol.Transition.{unexpected, dispatch, is_closed_phase, apply_message}
use nvim_remote_mirror.Protocol.Machine.{
  RuntimeDirection, RuntimeStateMachine, check, store, observe, observe_all, is_closed,
}
use nvim_remote_mirror.Protocol.Machine.Invariant.{History, check-Passed}

apply_message_closed :
    (s : CapabilitySet) (m : RuntimeMessage) (next : RuntimePhase)
    → apply_message closed s m ≢ ok next
unfolding apply_message dispatch unexpected is_closed_phase
apply_message_closed s (error e) next h = cc
apply_message_closed s _ next h = cc

pub check_closed :
    (m : RuntimeStateMachine) (direction : RuntimeDirection) (message : RuntimeMessage)
    (next : RuntimePhase)
    → m.phase ≡ closed
    → check m direction message ≢ ok next
check_closed m direction message next e h = apply_message_closed m.supported message next (
    subst (λ phase. apply_message phase m.supported message ≡ ok next) e
      (check-Passed m direction message h).applied)

pub observe_closed :
    (m : RuntimeStateMachine) (direction : RuntimeDirection) (message : RuntimeMessage)
    → m.phase ≡ closed
    → ((observe m direction message).0 ≡ m) × ((observe m direction message).1 ≢ ok tt)
unfolding observe
observe_closed m direction message e =
    by_result (check m direction message) (λ next. check_closed m direction message next e)
  where
    by_result :
        (r : Result RuntimeStateError RuntimePhase)
        → ((next : RuntimePhase) → r ≢ ok next)
        → ((store m r).0 ≡ m) × ((store m r).1 ≢ ok tt)
    by_result (ok next) k = absurd (k next refl)
    by_result (err x) k = (refl, λ h. cc)
    by_result panic k = (refl, λ h. cc)

pub observe_all_closed :
    (m : RuntimeStateMachine) (history : History) → m.phase ≡ closed → observe_all m history ≡ m
unfolding observe_all
observe_all_closed m [] e = refl
observe_all_closed m ((direction, message) ∷ rest) e =
    rw (observe_closed m direction message e).0 (observe_all_closed m rest e)

is_closed-phase : (phase : RuntimePhase) → is_closed_phase phase ≡ true → phase ≡ closed
unfolding is_closed_phase
is_closed-phase closed h = refl
is_closed-phase _ h = cc

-- On a closed stream every message is refused, and whatever is sent or received afterwards leaves
-- the machine as it is.
pub closed_stays :
    (m : RuntimeStateMachine) (history : History) (direction : RuntimeDirection)
    (message : RuntimeMessage)
    → is_closed m ≡ true
    → (observe_all m history ≡ m) × ((observe m direction message).1 ≢ ok tt)
unfolding is_closed
closed_stays m history direction message h =
    let e = is_closed-phase m.phase h in
    (observe_all_closed m history e, (observe_closed m direction message e).1)
