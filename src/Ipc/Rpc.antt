-- ===== src/Ipc/Rpc.antt =====
-- src/ipc/server.h: `HandleConnection`, and what it does with one request. A handler is a function of
-- the state that the handlers share, and reads the request behind the method id. A process that is
-- told to stop (`running_`) is not modelled.
pub mod Client
pub mod Queue
pub mod Requests
pub mod Serving
pub mod Calls
mod Examples
use mini_hadoop.Common.{
  Fault, ℕ, ◌^◌, ◌||◌, Option, none, some, List, [], ◌∷◌, ◌++◌, Bool, length, ltb, if◌then◌else◌,
  Outcome, ok, throws,
}
use mini_hadoop.Common.Int.{ℤ, pos, negsuc, wrap32, eqb_ℤ}
use mini_hadoop.Common.Text.{Bytes, codes}
use mini_hadoop.Common.Assoc.{Map, lookup}
use mini_hadoop.Io.Buffer.{
  OutputBuffer, Reader, ◌>>=◌, return, reset, be_value, read_int, write_int, write_raw,
}
use mini_hadoop.Io.Buffer.Fields.{int, string, write_fields}
use mini_hadoop.Ipc.Socket.{Incoming, read_full, write_full}

abbrev pub Handler : Type 0 → Type 0
Handler S = S → Reader (S × OutputBuffer)

-- `handlers_`
abbrev pub Handlers : Type 0 → Type 0
Handlers S = Map ℤ (Handler S)

-- 64 * 1024 * 1024
abbrev pub max_message : ℕ
max_message = 67108864

-- The frame around a reply, and around a request.
unfoldable pub frame : Bytes → Bytes
unfolding write_int write_raw
frame body = write_raw (write_int [] (wrap32 (pos (length body)))) body

abbrev pub refused : ℕ → Bool
refused total = ltb total 4 || ltb max_message total

-- The reads of one round of the loop: `none` is a `break`.
unfoldable pub receive : Incoming → Option (Bytes × Incoming)
receive segments = elim (read_full 4 segments) [
  | none ↦ none
  | some (raw, rest) ↦
      let total = be_value raw in
      let msg = read_full total rest in if refused total then none else msg
]

abbrev pub unknown_method : OutputBuffer
unknown_method = write_fields [] (int (negsuc 0) ∷ string (codes "unknown method") ∷ [])

abbrev pub run_method : {S : Type 0} → Handlers S → S → ℤ → Reader (S × OutputBuffer)
run_method handlers s method = elim (lookup eqb_ℤ method handlers) [
  | some handler ↦ handler s
  | none ↦ return (s, unknown_method)
]

-- The method id, and its handler on the rest of the message.
unfoldable pub dispatch : {S : Type 0} → Handlers S → S → Bytes → Outcome (S × OutputBuffer)
dispatch handlers s msg = elim ((read_int >>= run_method handlers s) (reset msg)) [
  | ok (result, _) ↦ ok result
  | throws e ↦ throws e
]

-- How a connection ends: the server closed it, with the state that it has then; or an exception left
-- the handler, which nothing catches in the worker's thread, and the process is terminated.
pub data Ending (S : Type 0) : Type 0 where
  closed : S → Ending S
  terminated : Fault → Ending S

-- The loop of `HandleConnection`: all bytes sent, and the end. `takes` has for each reply what the
-- calls of `send` take; behind its end they fail.
unfoldable pub serve : {S : Type 0} → Handlers S → List (List ℕ) → S → Incoming → Bytes × Ending S
serve handlers [] s segments = elim (receive segments) [
  | none ↦ ([], closed s)
  | some (msg, _) ↦ elim (dispatch handlers s msg) [
    | throws e ↦ ([], terminated e)
    | ok (s', resp) ↦ ((write_full [] (frame resp)).0, closed s')
  ]
]
serve handlers (first ∷ takes) s segments = elim (receive segments) [
  | none ↦ ([], closed s)
  | some (msg, rest) ↦ elim (dispatch handlers s msg) [
    | throws e ↦ ([], terminated e)
    | ok (s', resp) ↦
        let (sent, done) = write_full first (frame resp) in
        let (more, end) = serve handlers takes s' rest in
        if done then (sent ++ more, end) else (sent, closed s')
  ]
]
