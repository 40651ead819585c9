-- ===== src/Protocol/Transition/Total.antt =====
-- Under the invariant no message reaches the `unreachable!()` of `apply_message`.
use nvim_remote_mirror.Prelude.{
  ℕ, ◌≡◌, refl, ◌≢◌, Option, none, some, List, Text, Result, ok, err, panic, map_ok, arith,
}
use nvim_remote_mirror.Protocol.Capability.{
  RuntimeCapability, process_pipe_v1, process_pty_v1, workspace_watch_v1, CapabilitySet,
}
use nvim_remote_mirror.Protocol.Types.{
  RuntimePersistence, attached, detachable, PtySessionCredentials, RuntimeProcessSpec,
}
use nvim_remote_mirror.Protocol.Message.{
  RuntimeMessage, client_hello, server_hello, error, start_process, process_started, attach_pty,
  pty_attached, input, input_ack, close_input, output, output_ack, output_gap, resize, signal,
  detach, detached, exited, watch_start, watch_started, watch_events, watch_ack, watch_overflow,
  watch_stop, watch_stopped,
}
use nvim_remote_mirror.Protocol.Validate.{validate_spec_for_capability}
use nvim_remote_mirror.Protocol.Phase.{
  RuntimeProcessState, RuntimeWatchState, RuntimePhase, await_client_hello, await_server_hello,
  ready, await_process_started, await_pty_attached, running, await_detached, await_watch_started,
  watching, await_watch_stopped, closed,
}
use nvim_remote_mirror.Protocol.Expect.{expect_request_id, expect_watch_id, expect_process_id}
use nvim_remote_mirror.Protocol.Process.{apply_running_message, apply_running_server_message}
use nvim_remote_mirror.Protocol.Watch.{apply_watch_message}
use nvim_remote_mirror.Protocol.Transition.{
  unexpected, validate_protocol_and_capability, on_await_client_hello, on_await_server_hello,
  on_ready, process_start, on_await_process_started, on_await_pty_attached, on_running,
  on_await_detached, on_await_watch_started, on_watching, on_await_watch_stopped, dispatch,
  apply_message,
}
use nvim_remote_mirror.Protocol.Transition.Sound.{PhaseSound}

map_ok-ne-panic {ℓ κ μ} :
    {E : Type μ} {A : Type ℓ} {B : Type κ} (f : A → B) (r : Result E A)
    → r ≢ panic
    → map_ok f r ≢ panic
map_ok-ne-panic f (ok a) h e = cc
map_ok-ne-panic f (err x) h e = cc
map_ok-ne-panic f panic h e = absurd (h refl)

module _ (p : RuntimeProcessState) where
  server_ne_panic : (m : RuntimeMessage) → apply_running_server_message p m ≢ panic
  unfolding apply_running_server_message
  server_ne_panic (input_ack _ _) h = ground arith
  server_ne_panic (output _ _ _ _) h = ground arith
  server_ne_panic (output_gap _ _ _ _) h = ground arith
  server_ne_panic (exited _ _ _) h = ground arith
  server_ne_panic _ h = cc

  running_ne_panic : (m : RuntimeMessage) → apply_running_message p m ≢ panic
  unfolding apply_running_message
  running_ne_panic (input _ _ _) h = ground arith
  running_ne_panic (close_input _ _) h = ground arith
  running_ne_panic (output_ack _ _ _) h = ground arith
  running_ne_panic (resize _ _) h = ground arith
  running_ne_panic (signal _ _) h = ground arith
  running_ne_panic (detach _) h = ground arith
  running_ne_panic m h = server_ne_panic m h

  on_await_detached-ne-panic : (m : RuntimeMessage) → on_await_detached p m ≢ panic
  unfolding on_await_detached expect_process_id
  on_await_detached-ne-panic (detached _ _) h = ground arith
  on_await_detached-ne-panic (output_ack process_id stream next_offset) h =
      map_ok-ne-panic _ _ (running_ne_panic (output_ack process_id stream next_offset)) h
  on_await_detached-ne-panic m h = map_ok-ne-panic _ _ (server_ne_panic m) h

module _ (w : RuntimeWatchState) where
  watch_ne_panic : (m : RuntimeMessage) → apply_watch_message w m ≢ panic
  unfolding apply_watch_message
  watch_ne_panic (watch_events _ _ _) h = ground arith
  watch_ne_panic (watch_ack _ _) h = ground arith
  watch_ne_panic (watch_overflow _ _ _) h = ground arith
  watch_ne_panic _ h = cc

  on_watching-ne-panic : (m : RuntimeMessage) → on_watching w m ≢ panic
  unfolding on_watching expect_watch_id
  on_watching-ne-panic (watch_stop _) h = ground arith
  on_watching-ne-panic m h = map_ok-ne-panic _ _ (watch_ne_panic m) h

  on_await_watch_stopped-ne-panic : (m : RuntimeMessage) → on_await_watch_stopped w m ≢ panic
  unfolding on_await_watch_stopped expect_watch_id
  on_await_watch_stopped-ne-panic (watch_stopped _) h = ground arith
  on_await_watch_stopped-ne-panic m h = map_ok-ne-panic _ _ (watch_ne_panic m) h

process_start-ne-panic :
    (c : RuntimeCapability) (persistence : RuntimePersistence)
    (session : Option PtySessionCredentials) (process_id output_offset : ℕ)
    → c ≢ workspace_watch_v1
    → process_start c persistence session process_id output_offset ≢ panic
unfolding process_start
process_start-ne-panic process_pipe_v1 attached none process_id o n h = ground arith
process_start-ne-panic process_pipe_v1 _ _ process_id o n h = cc
process_start-ne-panic process_pty_v1 attached none process_id o n h = ground arith
process_start-ne-panic process_pty_v1 attached (some _) process_id o n h = cc
process_start-ne-panic process_pty_v1 (detachable _) none process_id o n h = cc
process_start-ne-panic process_pty_v1 (detachable _) (some _) process_id o n h = ground arith
process_start-ne-panic workspace_watch_v1 _ _ process_id o n h = absurd (n refl)

handshake_ne_panic :
    (s : CapabilitySet) (v : Text) (n : ℕ) (c : RuntimeCapability)
    → validate_protocol_and_capability s v n c ≢ panic
unfolding validate_protocol_and_capability
handshake_ne_panic s v n c h = ground arith

spec_ne_panic :
    (c : RuntimeCapability) (spec : RuntimeProcessSpec)
    → validate_spec_for_capability c spec ≢ panic
unfolding validate_spec_for_capability
spec_ne_panic process_pipe_v1 spec h = ground arith
spec_ne_panic process_pty_v1 spec h = ground arith
spec_ne_panic workspace_watch_v1 spec h = cc

on_ready-ne-panic : (c : RuntimeCapability) (m : RuntimeMessage) → on_ready c m ≢ panic
unfolding on_ready unexpected
on_ready-ne-panic process_pipe_v1 (start_process _ spec) h =
    ground (arith, spec_ne_panic process_pipe_v1 spec)
on_ready-ne-panic process_pty_v1 (start_process _ spec) h =
    ground (arith, spec_ne_panic process_pty_v1 spec)
on_ready-ne-panic process_pty_v1 (attach_pty _ _ _) h = cc
on_ready-ne-panic workspace_watch_v1 (watch_start _ _) h = cc
on_ready-ne-panic process_pipe_v1 _ h = cc
on_ready-ne-panic process_pty_v1 _ h = cc
on_ready-ne-panic workspace_watch_v1 _ h = cc

module _ (supported : CapabilitySet) where
  client_hello_ne_panic : (m : RuntimeMessage) → on_await_client_hello supported m ≢ panic
  unfolding on_await_client_hello unexpected
  client_hello_ne_panic (client_hello v n c) h = ground (arith, handshake_ne_panic supported v n c)
  client_hello_ne_panic _ h = cc

  server_hello_ne_panic :
      (e : RuntimeCapability) (m : RuntimeMessage) → on_await_server_hello supported e m ≢ panic
  unfolding on_await_server_hello unexpected
  server_hello_ne_panic e (server_hello v n c) h =
      ground (arith, handshake_ne_panic supported v n c)
  server_hello_ne_panic e _ h = cc

process_started_ne_panic :
    (c : RuntimeCapability) (expected : ℕ) (persistence : RuntimePersistence) (m : RuntimeMessage)
    → c ≢ workspace_watch_v1
    → on_await_process_started c expected persistence m ≢ panic
unfolding on_await_process_started unexpected expect_request_id
process_started_ne_panic c expected persistence (process_started _ process_id session o) n h =
    ground (arith, process_start-ne-panic c persistence session process_id o n)
process_started_ne_panic c expected persistence _ n h = cc

pty_attached_ne_panic :
    (expected : ℕ) (session : List ℕ) (replay_from : Option ℕ) (m : RuntimeMessage)
    → on_await_pty_attached expected session replay_from m ≢ panic
unfolding on_await_pty_attached unexpected expect_request_id
pty_attached_ne_panic expected session none (pty_attached _ _ _ _) h = ground arith
pty_attached_ne_panic expected session (some r) (pty_attached _ _ _ _) h = ground arith
pty_attached_ne_panic expected session replay_from _ h = cc

watch_started_ne_panic :
    (expected : ℕ) (resume_from : Option ℕ) (m : RuntimeMessage)
    → on_await_watch_started expected resume_from m ≢ panic
unfolding on_await_watch_started unexpected expect_request_id
watch_started_ne_panic expected none (watch_started _ _ _) h = ground arith
watch_started_ne_panic expected (some r) (watch_started _ _ _) h = ground arith
watch_started_ne_panic expected resume_from _ h = cc

apply_message-eq-panic :
    (supported : CapabilitySet) (phase : RuntimePhase) (m : RuntimeMessage)
    → apply_message phase supported m ≡ panic
    → dispatch phase supported m ≡ panic
unfolding apply_message
apply_message-eq-panic supported phase (error e) h = ground arith
apply_message-eq-panic supported phase m h = h

module _ (supported : CapabilitySet) (m : RuntimeMessage) where
  dispatch-ne-panic : (phase : RuntimePhase) → PhaseSound phase → dispatch phase supported m ≢ panic
  unfolding dispatch unexpected on_running
  dispatch-ne-panic await_client_hello v h = client_hello_ne_panic supported m h
  dispatch-ne-panic (await_server_hello c) v h = server_hello_ne_panic supported c m h
  dispatch-ne-panic (ready c) v h = on_ready-ne-panic c m h
  dispatch-ne-panic (await_process_started c request_id persistence) v h =
      process_started_ne_panic c request_id persistence m v h
  dispatch-ne-panic (await_pty_attached request_id session replay_from) v h =
      pty_attached_ne_panic request_id session replay_from m h
  dispatch-ne-panic (running p) v h = map_ok-ne-panic _ _ (running_ne_panic p m) h
  dispatch-ne-panic (await_detached p) v h = on_await_detached-ne-panic p m h
  dispatch-ne-panic (await_watch_started request_id resume_from) v h =
      watch_started_ne_panic request_id resume_from m h
  dispatch-ne-panic (watching w) v h = on_watching-ne-panic w m h
  dispatch-ne-panic (await_watch_stopped w) v h = on_await_watch_stopped-ne-panic w m h
  dispatch-ne-panic closed v h = cc

  pub apply_message-ne-panic :
      (phase : RuntimePhase) → PhaseSound phase → apply_message phase supported m ≢ panic
  apply_message-ne-panic phase v h =
      dispatch-ne-panic phase v (apply_message-eq-panic supported phase m h)
