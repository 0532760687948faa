-- ===== src/Ipc/Rpc/Requests.antt =====
-- Requests on a connection of src/ipc/server.h, handled one after the other.
use mini_hadoop.Common.{
  ℕ, ◌%◌, ◌^◌, ◌≤◌, ◌<◌, ◌≡◌, refl, ap, subst, true, false, List, [], ◌∷◌, ◌++◌, append_assoc,
  length, none, some, arith, Outcome, ok, throws,
}
use mini_hadoop.Common.Int.{to_u32, wrap32_of_lt}
use mini_hadoop.Common.Text.{Bytes}
use mini_hadoop.Io.Buffer.{OutputBuffer, be32, be_value}
use mini_hadoop.Io.Buffer.RoundTrip.{be_value-be32}
use mini_hadoop.Ipc.Socket.{Incoming, write_full}
use mini_hadoop.Ipc.Socket.Stream.{Delivers, read_full-Delivers, read_full_short}
use mini_hadoop.Ipc.Rpc.{Handlers, max_message, refused, frame, receive, dispatch}

pub frame-append : (msg : Bytes) → length msg < 2 ^ 31 → frame msg ≡ be32 (length msg) ++ msg
unfolding frame to_u32
frame-append msg h =
    let e : length msg % 2 ^ 32 ≡ length msg = omega arith in
    rw (wrap32_of_lt (length msg) h) (ap (λ (n : ℕ). be32 n ++ msg) e)

-- A message that the server takes.
abbrev pub IsMessage : Bytes → Type 0
IsMessage msg = (4 ≤ length msg) × (length msg ≤ max_message)

pub receive-frame :
    (msg rest : Bytes) (segments : Incoming)
    → IsMessage msg
    → Delivers segments (frame msg ++ rest)
    → (left : Incoming) × (receive segments ≡ some (msg, left)) × Delivers left rest
unfolding receive
receive-frame msg rest segments (lower, upper) h =
    let small : length msg < 2 ^ 31 = omega arith in
    let split : frame msg ++ rest ≡ be32 (length msg) ++ (msg ++ rest) =
      rw (frame-append msg small) (append_assoc (be32 (length msg)) msg rest) in
    let (left, e, h') =
      read_full-Delivers (be32 (length msg)) (msg ++ rest) segments
        (subst (Delivers segments) split h) in
    let (left', e', h'') = read_full-Delivers msg rest left h' in
    let value : be_value (be32 (length msg)) ≡ length msg =
      be_value-be32 (length msg) (omega arith) in
    let allowed : refused (length msg) ≡ false = ground arith in
    (left', rw (receive, e, value, allowed, e') refl, h'')

abbrev pub cons_reply :
    {S : Type 0} → OutputBuffer → Outcome (S × List OutputBuffer) → Outcome (S × List OutputBuffer)
cons_reply resp (throws e) = throws e
cons_reply resp (ok (s, resps)) = ok (s, resp ∷ resps)

-- The requests handled in their order: the last state and the replies, or the first exception.
unfoldable pub dispatch_all :
    {S : Type 0} → Handlers S → S → List Bytes → Outcome (S × List OutputBuffer)
dispatch_all handlers s [] = ok (s, [])
dispatch_all handlers s (msg ∷ msgs) = elim (dispatch handlers s msg) [
  | throws e ↦ throws e
  | ok (s', resp) ↦ cons_reply resp (dispatch_all handlers s' msgs)
]

abbrev pub frames : List Bytes → Bytes
frames [] = []
frames (msg ∷ msgs) = frame msg ++ frames msgs

-- The peer takes each of these replies.
abbrev pub TakesAll : List (List ℕ) → List OutputBuffer → Type 0
TakesAll takes [] = Unit
TakesAll [] (resp ∷ resps) = ⊥
TakesAll (n ∷ takes) (resp ∷ resps) =
    (write_full n (frame resp) ≡ (frame resp, true)) × TakesAll takes resps

pub receive_end : (segments : Incoming) → Delivers segments [] → receive segments ≡ none
unfolding receive
receive_end segments h = rw (receive, read_full_short 4 [] segments h (omega arith)) refl
