-- ===== src/Ipc/Rpc/Client.antt =====
-- src/ipc/client.h: `CallRaw` on an open connection. What a failed call leaves in `resp_data` is the
-- empty list here: no caller of the program reads it.
use mini_hadoop.Common.{ℕ, Option, none, some, List, [], if◌then◌else◌}
use mini_hadoop.Common.Int.{ℤ}
use mini_hadoop.Common.Text.{Bytes, codes}
use mini_hadoop.Status.{Status}
use mini_hadoop.Io.Buffer.{be_value, write_int, write_raw}
use mini_hadoop.Ipc.Socket.{Incoming, read_full, write_full}
use mini_hadoop.Ipc.Rpc.{frame}

-- `frame`: the method id and the request.
unfoldable pub request : ℤ → Bytes → Bytes
unfolding write_int write_raw
request method body = write_raw (write_int [] method) body

-- The two reads behind the send.
unfoldable pub read_reply : Incoming → Option (Bytes × Incoming)
read_reply segments = elim (read_full 4 segments) [
  | none ↦ none
  | some (raw, rest) ↦ read_full (be_value raw) rest
]

-- What the calls of `send` take, and what `recv` delivers: the bytes sent, the status, the reply and
-- what is left to receive.
unfoldable pub call_raw : List ℕ → Incoming → ℤ → Bytes → Bytes × (Status × Bytes × Incoming)
unfolding frame
call_raw takes segments method body =
    let (sent, done) = write_full takes (frame (request method body)) in
    let answer : Status × Bytes × Incoming = elim (read_reply segments) [
      | none ↦ (Status.io_error (codes "recv failed"), [], segments)
      | some (resp, left) ↦ (Status.ok, resp, left)
    ] in
    if done then (sent, answer) else (sent, (Status.io_error (codes "send failed"), [], segments))
