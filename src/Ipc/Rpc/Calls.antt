-- ===== src/Ipc/Rpc/Calls.antt =====
-- A call of src/ipc/client.h answered by src/ipc/server.h.
use mini_hadoop.Common.{
  ℕ, ◌+◌, ◌^◌, ◌≤◌, ◌<◌, ◌≡◌, refl, sym, ap, subst, ◌∙◌, true, List, [], ◌∷◌, ◌++◌, append-nil,
  append_assoc, length, some, arith, ok,
}
use mini_hadoop.Common.Int.{eqb_ℤ, ℤ, IsInt32}
use mini_hadoop.Common.Text.{Bytes}
use mini_hadoop.Common.Assoc.{lookup}
use mini_hadoop.Status.{Status}
use mini_hadoop.Io.Buffer.{OutputBuffer, be32, be_value, reset, read_int}
use mini_hadoop.Io.Buffer.Cursor.{Reads, At-reset, >>=-Reads}
use mini_hadoop.Io.Buffer.RoundTrip.{be_value-be32, read_int-Reads}
use mini_hadoop.Ipc.Socket.{Incoming, write_full}
use mini_hadoop.Ipc.Socket.Stream.{Delivers, read_full-Delivers}
use mini_hadoop.Ipc.Rpc.{run_method, Handlers, Handler, max_message, frame, dispatch, Ending, serve}
use mini_hadoop.Ipc.Rpc.Client.{request, read_reply, call_raw}
use mini_hadoop.Ipc.Rpc.Serving.{serve-dispatch_all}
use mini_hadoop.Ipc.Rpc.Requests.{IsMessage, frame-append, dispatch_all}

-- The message of a call is one that the server takes.
pub request-IsMessage :
    (method : ℤ) (body : Bytes) → length body + 4 ≤ max_message → IsMessage (request method body)
unfolding request
request-IsMessage method body h = (omega arith, omega arith)

-- The handler of a method that is registered sees the request from its first byte on.
pub dispatch-request :
    {S : Type 0} (handlers : Handlers S) (handler : Handler S) (method : ℤ) (body : Bytes)
    (s s' : S) (resp : OutputBuffer)
    → lookup eqb_ℤ method handlers ≡ some handler
    → IsInt32 method
    → length body + 4 ≤ max_message
    → Reads (handler s) (s', resp) body
    → dispatch handlers s (request method body) ≡ ok (s', resp)
unfolding dispatch request
dispatch-request {S} handlers handler method body s s' resp el hm small reads =
    let run : Reads (run_method handlers s method) (s', resp) body = rw (run_method, el) reads in
    let all = >>=-Reads read_int (run_method handlers s) (read_int-Reads method hm) run in
    rw
      (
        dispatch,
        all.run (reset (request method body)) []
            (rw append-nil (At-reset (request method body) (omega arith))),
      )
      refl

pub read_reply-frame :
    (resp rest : Bytes) (segments : Incoming)
    → length resp < 2 ^ 31
    → Delivers segments (frame resp ++ rest)
    → (left : Incoming) × (read_reply segments ≡ some (resp, left)) × Delivers left rest
unfolding read_reply
read_reply-frame resp rest segments small h =
    let split : frame resp ++ rest ≡ be32 (length resp) ++ (resp ++ rest) =
      rw (frame-append resp small) (append_assoc (be32 (length resp)) resp rest) in
    let (left, e, h') =
      read_full-Delivers (be32 (length resp)) (resp ++ rest) segments
        (subst (Delivers segments) split h) in
    let (left', e', h'') = read_full-Delivers resp rest left h' in
    let value : be_value (be32 (length resp)) ≡ length resp =
      be_value-be32 (length resp) (omega arith) in
    (left', rw (read_reply, e, value, e') refl, h'')

module _ (takes : List ℕ) (segments : Incoming) (method : ℤ) (body : Bytes)
    (h : write_full takes (frame (request method body)) ≡ (frame (request method body), true)) where
  pub call_raw_sent : (call_raw takes segments method body).0 ≡ frame (request method body)
  unfolding call_raw
  call_raw_sent = rw (call_raw, h) refl

  call_raw_answer :
      (resp : Bytes) (left : Incoming)
      → read_reply segments ≡ some (resp, left)
      → (call_raw takes segments method body).1 ≡ (Status.ok, resp, left)
  unfolding call_raw
  call_raw_answer resp left e = rw (call_raw, h, e) refl

-- A client sends a call below 64 MiB over a new connection, and the server's handler of the method,
-- given the request, returns a state and a reply below 2 GiB. However the two directions are cut
-- into segments, if both sides take what the other sends, the server is left with that state, and
-- the call returns OK with that reply.
pub call_raw-serve :
    {S : Type 0} (handlers : Handlers S) (method : ℤ) (body : Bytes) (s s' : S)
    (resp : OutputBuffer) (takes reply_takes : List ℕ) (to_server to_client : Incoming)
    → length body + 4 ≤ max_message
    → length resp < 2 ^ 31
    → dispatch handlers s (request method body) ≡ ok (s', resp)
    → write_full takes (frame (request method body)) ≡ (frame (request method body), true)
    → write_full reply_takes (frame resp) ≡ (frame resp, true)
    → Delivers to_server (call_raw takes to_client method body).0
    → Delivers to_client (serve handlers (reply_takes ∷ []) s to_server).0
    → ((serve handlers (reply_takes ∷ []) s to_server).1 ≡ Ending.closed s')
      × ((call_raw takes to_client method body).1.0 ≡ Status.ok)
      × ((call_raw takes to_client method body).1.1 ≡ resp)
unfolding call_raw dispatch_all
call_raw-serve {S} handlers method body s s' resp takes reply_takes to_server to_client hb hr ed ew
      ew' hs hc =
    let sent = call_raw_sent takes to_client method body ew in
    let asked =
      subst (Delivers to_server) (sent ∙ sym (append-nil (frame (request method body)))) hs in
    let handled : dispatch_all handlers s (request method body ∷ []) ≡ ok (s', resp ∷ []) =
      rw (dispatch_all, ed) refl in
    let served =
      serve-dispatch_all handlers (reply_takes ∷ []) s s' (request method body ∷ []) (resp ∷ [])
        to_server (request-IsMessage method body hb, tt) asked handled (ew', tt) in
    let (left, er, _) =
      read_reply-frame resp [] to_client hr
        (subst (Delivers to_client) (ap (λ (r : Bytes × Ending S). r.0) served) hc) in
    let answered = call_raw_answer takes to_client method body ew resp left er in
    (
      ap (λ (r : Bytes × Ending S). r.1) served,
      ap (λ (r : Status × Bytes × Incoming). r.0) answered,
      ap (λ (r : Status × Bytes × Incoming). r.1) answered,
    )
