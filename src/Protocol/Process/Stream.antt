-- ===== src/Protocol/Process/Stream.antt =====
-- The bytes of a process's streams as their offsets place them.
use native.Mathlib.Nat.{add-zero, add-suc, suc-add}
use nvim_remote_mirror.Prelude.{ℕ, suc, ◌+◌, ◌≡◌, Bool, List, [], ◌∷◌, ◌++◌, length, ok, arith}
use nvim_remote_mirror.Protocol.Types.{RuntimeOutputStream, stdout, stderr, pty}
use nvim_remote_mirror.Protocol.Message.{RuntimeMessage, input, output}
use nvim_remote_mirror.Protocol.Phase.{RuntimeProcessState}
use nvim_remote_mirror.Protocol.Process.{apply_running_message}

pub data Channel : Type 0 where
  input_channel : Channel
  output_channel : RuntimeOutputStream → Channel

-- The bytes of a list, each with its position.
abbrev pub enumerate : ℕ → List ℕ → List (ℕ × ℕ)
enumerate n [] = []
enumerate n (x ∷ xs) = (n, x) ∷ enumerate (suc n) xs

pub enumerate-append :
    (n : ℕ) (xs ys : List ℕ)
    → enumerate n (xs ++ ys) ≡ enumerate n xs ++ enumerate (n + length xs) ys
enumerate-append n [] ys = rw (add-zero n)
enumerate-append n (x ∷ xs) ys =
    rw (enumerate-append (suc n) xs ys, suc-add n (length xs), add-suc n (length xs))

-- Where the channel stands.
abbrev pub position : Channel → RuntimeProcessState → ℕ
position input_channel p = p.input_sent
position (output_channel stdout) p = p.stdout.next
position (output_channel stderr) p = p.stderr.next
position (output_channel pty) p = p.pty_output.next

-- The bytes that a message carries on the channel.
abbrev pub payload : Channel → RuntimeMessage → List ℕ
payload input_channel (input _ _ bytes) = bytes
payload (output_channel stdout) (output _ stdout _ bytes) = bytes
payload (output_channel stderr) (output _ stderr _ bytes) = bytes
payload (output_channel pty) (output _ pty _ bytes) = bytes
payload _ _ = []

-- The same bytes at the offsets that the message announces.
abbrev pub placed : Channel → RuntimeMessage → List (ℕ × ℕ)
placed input_channel (input _ offset bytes) = enumerate offset bytes
placed (output_channel stdout) (output _ stdout offset bytes) = enumerate offset bytes
placed (output_channel stderr) (output _ stderr offset bytes) = enumerate offset bytes
placed (output_channel pty) (output _ pty offset bytes) = enumerate offset bytes
placed _ _ = []

-- A message continues the channel: its bytes begin where the channel stands, and move it on.
pub record Continues (c : Channel) (p : RuntimeProcessState) (m : RuntimeMessage)
    (q : RuntimeProcessState) : Type 0 where
  pub in_place : placed c m ≡ enumerate (position c p) (payload c m)
  pub moves_on : position c q ≡ position c p + length (payload c m)

module _ (p q : RuntimeProcessState) (b : Bool) where
  pub apply_running_message-Continues :
      (c : Channel) (m : RuntimeMessage) → apply_running_message p m ≡ ok (q, b) → Continues c p m q
  unfolding apply_running_message
  apply_running_message-Continues input_channel (input _ _ _) h = ground arith
  apply_running_message-Continues (output_channel stdout) (output _ stdout _ _) h = ground arith
  apply_running_message-Continues (output_channel stderr) (output _ stderr _ _) h = ground arith
  apply_running_message-Continues (output_channel pty) (output _ pty _ _) h = ground arith
  apply_running_message-Continues (output_channel stdout) _ h = ground arith
  apply_running_message-Continues (output_channel stderr) _ h = ground arith
  apply_running_message-Continues (output_channel pty) _ h = ground arith
  apply_running_message-Continues input_channel _ h = ground arith
