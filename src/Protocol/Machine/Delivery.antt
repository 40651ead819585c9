-- ===== src/Protocol/Machine/Delivery.antt =====
-- The bytes that a stream delivers over a whole history.
use nvim_remote_mirror.Prelude.{
  ℕ, ◌+◌, ◌≡◌, refl, sym, ap, ap₂, some-injective, ◌∙◌, inl, inr, Bool, true, false, some, List, [],
  ◌∷◌, ◌++◌, length, length-append, Result, ok, err, panic, if◌then◌else◌, Bool-cases, arith,
}
use nvim_remote_mirror.Protocol.Message.{RuntimeMessage}
use nvim_remote_mirror.Protocol.Errors.{RuntimeStateError}
use nvim_remote_mirror.Protocol.Phase.{RuntimeProcessState, RuntimePhase, closed}
use nvim_remote_mirror.Protocol.Process.Stream.{
  Channel, position, payload, placed, enumerate, enumerate-append, Continues,
}
use nvim_remote_mirror.Protocol.Transition.Delivery.{process_of, apply_message-Delivers}
use nvim_remote_mirror.Protocol.Machine.{
  RuntimeDirection, RuntimeStateMachine, check, store, observe, observe_all,
}
use nvim_remote_mirror.Protocol.Machine.Closing.{observe_all_closed}
use nvim_remote_mirror.Protocol.Machine.Invariant.{History, check-Passed}

abbrev pub is_ok {ℓ μ} : {E : Type μ} {A : Type ℓ} → Result E A → Bool
is_ok (ok a) = true
is_ok (err e) = false
is_ok panic = false

-- The part of a history that the machine took.
unfoldable pub accepted : RuntimeStateMachine → History → History
accepted m [] = []
accepted m ((direction, message) ∷ rest) =
    let tail = accepted (observe m direction message).0 rest in
    if is_ok (observe m direction message).1 then (direction, message) ∷ tail else tail

-- What an accepted message did.
observe_taken :
    (m : RuntimeStateMachine) (direction : RuntimeDirection) (message : RuntimeMessage)
    → is_ok (observe m direction message).1 ≡ true
    → (next : RuntimePhase) × (check m direction message ≡ ok next)
      × ((observe m direction message).0 ≡ record m { phase = next })
unfolding observe
observe_taken m direction message = by_result (check m direction message)
  where
    by_result :
        (r : Result RuntimeStateError RuntimePhase)
        → is_ok (store m r).1 ≡ true
        → (next : RuntimePhase) × (r ≡ ok next) × ((store m r).0 ≡ record m { phase = next })
    by_result (ok next) h = (next, refl, refl)
    by_result (err x) h = cc
    by_result panic h = cc

process_after_close :
    (m : RuntimeStateMachine) (history : History) (q : RuntimeProcessState)
    → m.phase ≡ closed
    → ¬ (process_of (observe_all m history).phase ≡ some q)
process_after_close m history q e f = cc (
  ap (λ (n : RuntimeStateMachine). process_of n.phase) (observe_all_closed m history e),
  ap process_of e,
)

-- A message that is refused, or at which the machine panics, leaves the machine as it was.
pub observe_refused :
    (m : RuntimeStateMachine) (direction : RuntimeDirection) (message : RuntimeMessage)
    → is_ok (observe m direction message).1 ≡ false
    → (observe m direction message).0 ≡ m
unfolding observe
observe_refused m direction message = by_result (check m direction message)
  where
    by_result :
        (r : Result RuntimeStateError RuntimePhase)
        → is_ok (store m r).1 ≡ false
        → (store m r).0 ≡ m
    by_result (ok next) h = cc
    by_result (err e) h = refl
    by_result panic h = refl

abbrev pub payload_all : Channel → History → List ℕ
payload_all c [] = []
payload_all c ((_, message) ∷ rest) = payload c message ++ payload_all c rest

abbrev pub placed_all : Channel → History → List (ℕ × ℕ)
placed_all c [] = []
placed_all c ((_, message) ∷ rest) = placed c message ++ placed_all c rest

-- Over accepted messages a channel went from `from` to `to`, with every byte at its place.
abbrev pub Delivered : Channel → History → ℕ → ℕ → Type 0
Delivered c taken from to =
    (placed_all c taken ≡ enumerate from (payload_all c taken))
    × (to ≡ from + length (payload_all c taken))

module _ (c : Channel) where
  Delivered-cons :
      (p r : RuntimeProcessState) (direction : RuntimeDirection) (message : RuntimeMessage)
      (taken : History) (to : ℕ)
      → Continues c p message r
      → Delivered c taken (position c r) to
      → Delivered c ((direction, message) ∷ taken) (position c p) to
  Delivered-cons p r direction message taken to k d = (
    ap₂ ◌++◌ k.in_place (d.0 ∙ ap (λ n. enumerate n (payload_all c taken)) k.moves_on)
        ∙ sym (enumerate-append (position c p) (payload c message) (payload_all c taken)),
    omega (arith, d.1, k.moves_on, length-append (payload c message) (payload_all c taken)),
  )

  -- Where a stream has a process before and after a history, every channel was delivered without a
  -- gap, an overlap or a change of order: the bytes of the accepted messages, each at the offset that
  -- its message announces, are the bytes in the order of arrival at consecutive offsets from where
  -- the channel stood, and the channel now stands behind the last of them.
  pub observe_all-Delivered :
      (m : RuntimeStateMachine) (history : History) (p q : RuntimeProcessState)
      → process_of m.phase ≡ some p
      → process_of (observe_all m history).phase ≡ some q
      → Delivered c (accepted m history) (position c p) (position c q)
  unfolding accepted observe_all
  observe_all-Delivered m [] p q e f = (refl, rw (some-injective p q (sym e ∙ f)) (omega arith))
  observe_all-Delivered m ((direction, message) ∷ rest) p q e f =
      elim (Bool-cases (is_ok (observe m direction message).1)) [
        | inr no_change ↦ rw no_change (
            observe_all-Delivered (observe m direction message).0 rest p q
              (ap (λ (n : RuntimeStateMachine). process_of n.phase)
                  (observe_refused m direction message no_change)
                ∙ e)
              f)
        | inl taken ↦
            let (next, h, moved) = observe_taken m direction message taken in
            rw taken
              (elim (apply_message-Delivers m.phase p m.supported message e
                (check-Passed m direction message h).applied) [
                  | inl closing ↦ absurd (
                      process_after_close (observe m direction message).0 rest q
                        (ap (λ (n : RuntimeStateMachine). n.phase) moved ∙ closing) f)
                  | inr (r, g, k) ↦ Delivered-cons p r direction message _ _ (k c) (
                      observe_all-Delivered (observe m direction message).0 rest r q
                        (ap (λ (n : RuntimeStateMachine). process_of n.phase) moved ∙ g) f)
                ])
      ]
