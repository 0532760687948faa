-- ===== src/Ipc/Rpc/Serving.antt =====
-- A connection of src/ipc/server.h against its description: the requests handled one after the
-- other.
use mini_hadoop.Common.{
  inr, inl, Bool-cases, sym, ◌⊎◌, Fault, append-nil, ℕ, ◌^◌, ◌<◌, ◌≡◌, refl, subst, true, List, [],
  ◌∷◌, ◌++◌, append_assoc, length, none, some, arith, All, Outcome, ok, throws,
}
use mini_hadoop.Common.Text.{Bytes}
use mini_hadoop.Io.Buffer.{OutputBuffer, be32, be_value}
use mini_hadoop.Io.Buffer.RoundTrip.{be_value-be32}
use mini_hadoop.Ipc.Socket.{Incoming, write_full}
use mini_hadoop.Ipc.Socket.Stream.{Delivers, read_full-Delivers, read_full_short}
use mini_hadoop.Ipc.Rpc.{Handlers, max_message, refused, frame, receive, dispatch, Ending, serve}
use mini_hadoop.Ipc.Rpc.Requests.{
  IsMessage, receive-frame, cons_reply, dispatch_all, frames, TakesAll, receive_end,
}

module _ {S : Type 0} (handlers : Handlers S) where
  serve-none :
      (takes : List (List ℕ)) (s : S) (segments : Incoming)
      → receive segments ≡ none
      → serve handlers takes s segments ≡ ([], Ending.closed s)
  unfolding serve
  serve-none [] s segments e = rw (serve, e) refl
  serve-none (n ∷ takes) s segments e = rw (serve, e) refl

  serve_throws :
      (takes : List (List ℕ)) (s : S) (msg : Bytes) (fault : Fault) (segments left : Incoming)
      → receive segments ≡ some (msg, left)
      → dispatch handlers s msg ≡ throws fault
      → serve handlers takes s segments ≡ ([], Ending.terminated fault)
  unfolding serve
  serve_throws [] s msg fault segments left e ed = rw (serve, e, ed) refl
  serve_throws (n ∷ takes) s msg fault segments left e ed = rw (serve, e, ed) refl

receive_refused :
    (n : ℕ) (rest : Bytes) (segments : Incoming)
    → n < 2 ^ 32
    → (n < 4) ⊎ (max_message < n) ⊎ (length rest < n)
    → Delivers segments (be32 n ++ rest)
    → receive segments ≡ none
unfolding receive
receive_refused n rest segments hn bad h =
    let (left, e, h') = read_full-Delivers (be32 n) rest segments h in
    let value : be_value (be32 n) ≡ n = be_value-be32 n hn in
    elim (Bool-cases (refused n)) [
      | inl er ↦ rw (receive, e, value, er) refl
      | inr er ↦
          let cut : length rest < n = ground arith in
          rw (receive, e, value, er, read_full_short n rest left h' cut) refl
    ]

-- A round of which everything succeeds.
serve_round :
    {S : Type 0} (handlers : Handlers S) (first : List ℕ) (takes : List (List ℕ)) (s s1 : S)
    (msg : Bytes) (resp : OutputBuffer) (segments left : Incoming) (sent : Bytes) (end : Ending S)
    → receive segments ≡ some (msg, left)
    → dispatch handlers s msg ≡ ok (s1, resp)
    → write_full first (frame resp) ≡ (frame resp, true)
    → serve handlers takes s1 left ≡ (sent, end)
    → serve handlers (first ∷ takes) s segments ≡ (frame resp ++ sent, end)
unfolding serve
serve_round handlers first takes s s1 msg resp segments left sent end er ed ew es =
    rw (serve, er, ed, ew, es) refl

TakesAll-cons :
    (takes : List (List ℕ)) (resp : OutputBuffer) (resps : List OutputBuffer)
    → TakesAll takes (resp ∷ resps)
    → (first : List ℕ) × (rest : List (List ℕ)) × (takes ≡ first ∷ rest)
      × (write_full first (frame resp) ≡ (frame resp, true))
      × TakesAll rest resps
TakesAll-cons [] resp resps h = absurd h
TakesAll-cons (n ∷ takes) resp resps (h, h') = (n, takes, refl, h, h')

dispatch_all-cons :
    {S : Type 0} (handlers : Handlers S) (s s' : S) (msg : Bytes) (msgs : List Bytes)
    (resps : List OutputBuffer)
    → dispatch_all handlers s (msg ∷ msgs) ≡ ok (s', resps)
    → (s1 : S) × (resp : OutputBuffer) × (resps' : List OutputBuffer) × (dispatch handlers s msg
        ≡ ok (s1, resp))
      × (dispatch_all handlers s1 msgs ≡ ok (s', resps'))
      × (resps ≡ resp ∷ resps')
unfolding dispatch_all
dispatch_all-cons {S} handlers s s' msg msgs resps e = first (dispatch handlers s msg) refl e
  where
    later :
        (s1 : S) (resp : OutputBuffer)
        → dispatch handlers s msg ≡ ok (s1, resp)
        → (r : Outcome (S × List OutputBuffer)) → dispatch_all handlers s1 msgs ≡ r
        → cons_reply resp r ≡ ok (s', resps)
        → (s2 : S) × (resp' : OutputBuffer) × (resps' : List OutputBuffer) × (dispatch handlers s
              msg
            ≡ ok (s2, resp'))
          × (dispatch_all handlers s2 msgs ≡ ok (s', resps'))
          × (resps ≡ resp' ∷ resps')
    later s1 resp ed (throws t) er e = absurd cc
    later s1 resp ed (ok (s2, resps')) er e = (s1, resp, resps', ed, cc, cc)

    first :
        (d : Outcome (S × OutputBuffer))
        → dispatch handlers s msg ≡ d
        → elim d as (λ _. Outcome (S × List OutputBuffer)) [
          | throws t ↦ throws t
          | ok (s1, resp) ↦ cons_reply resp (dispatch_all handlers s1 msgs)
        ]
          ≡ ok (s', resps)
        → (s2 : S) × (resp' : OutputBuffer) × (resps' : List OutputBuffer) × (dispatch handlers s
              msg
            ≡ ok (s2, resp'))
          × (dispatch_all handlers s2 msgs ≡ ok (s', resps'))
          × (resps ≡ resp' ∷ resps')
    first (throws t) ed e = absurd cc
    first (ok (s1, resp)) ed e = later s1 resp ed (dispatch_all handlers s1 msgs) refl e

module _ {S : Type 0} (handlers : Handlers S) where
  -- The requests in front are handled, and what is behind them decides how the connection goes on.
  serve_front :
      (takes : List (List ℕ)) (s s' : S) (msgs : List Bytes) (resps : List OutputBuffer)
      (rest : Bytes) (segments : Incoming) (sent : Bytes) (end : Ending S)
      → All IsMessage msgs
      → Delivers segments (frames msgs ++ rest)
      → dispatch_all handlers s msgs ≡ ok (s', resps)
      → TakesAll takes resps
      → ((takes' : List (List ℕ)) (left : Incoming)
          → Delivers left rest
          → serve handlers takes' s' left ≡ (sent, end))
      → serve handlers takes s segments ≡ (frames resps ++ sent, end)
  unfolding dispatch_all
  serve_front takes s s' [] resps rest segments sent end hm h e ht then =
      let same : s ≡ s' = cc in
      let none_left : [] ≡ resps = cc in rw (← none_left, same) (then takes segments h)
  serve_front takes s s' (msg ∷ msgs) resps rest segments sent end (hm, hms) h e ht then =
      let (s1, resp, resps', ed, er, replies) = dispatch_all-cons handlers s s' msg msgs resps e in
      let h' = subst (Delivers segments) (append_assoc (frame msg) (frames msgs) rest) h in
      let (left, erc, hl) = receive-frame msg (frames msgs ++ rest) segments hm h' in
      let ht' : TakesAll takes (resp ∷ resps') = subst (TakesAll takes) replies ht in
      let (first, takes', split, ew, ht'') = TakesAll-cons takes resp resps' ht' in
      rw (replies, split, append_assoc)
        (serve_round handlers first takes' s s1 msg resp segments left (frames resps' ++ sent) end
          erc ed ew (serve_front takes' s1 s' msgs resps' rest left sent end hms hl er ht'' then))

  -- A client sends requests that the server takes, cut into segments in any way, and closes its
  -- side. If no handler throws and the client takes all replies, the server sends the replies in
  -- order, each in its frame, closes the connection, and its state is the one after the last
  -- request.
  pub serve-dispatch_all :
      (takes : List (List ℕ)) (s s' : S) (msgs : List Bytes) (resps : List OutputBuffer)
      (segments : Incoming)
      → All IsMessage msgs
      → Delivers segments (frames msgs)
      → dispatch_all handlers s msgs ≡ ok (s', resps)
      → TakesAll takes resps
      → serve handlers takes s segments ≡ (frames resps, Ending.closed s')
  serve-dispatch_all takes s s' msgs resps segments hm h e ht =
      subst (λ (bs : Bytes). serve handlers takes s segments ≡ (bs, Ending.closed s'))
        (append-nil (frames resps))
        (serve_front takes s s' msgs resps [] segments [] (Ending.closed s') hm
          (subst (Delivers segments) (sym (append-nil (frames msgs))) h) e ht
          (λ takes' left hl. serve-none handlers takes' s' left (receive_end left hl)))

  -- Behind requests that were handled stands a message whose handler throws, or whose fields end
  -- too early: the replies to those requests are sent, and the process is terminated.
  pub serve_terminated :
      (takes : List (List ℕ)) (s s' : S) (msgs : List Bytes) (resps : List OutputBuffer)
      (bad rest : Bytes) (fault : Fault) (segments : Incoming)
      → All IsMessage msgs
      → IsMessage bad
      → Delivers segments (frames msgs ++ (frame bad ++ rest))
      → dispatch_all handlers s msgs ≡ ok (s', resps)
      → TakesAll takes resps
      → dispatch handlers s' bad ≡ throws fault
      → serve handlers takes s segments ≡ (frames resps, Ending.terminated fault)
  serve_terminated takes s s' msgs resps bad rest fault segments hm hb h e ht ed =
      subst (λ (bs : Bytes). serve handlers takes s segments ≡ (bs, Ending.terminated fault))
        (append-nil (frames resps))
        (serve_front takes s s' msgs resps (frame bad ++ rest) segments [] (Ending.terminated fault)
          hm h e ht
          (λ takes' left hl.
            let (left', er, _) = receive-frame bad rest left hb hl in
            serve_throws handlers takes' s' bad fault left left' er ed))

  -- Behind requests that were handled stands a length outside of 4 to 64 MiB, or a message that is
  -- cut off: the replies are sent, the connection is closed, and the state is that after those
  -- requests.
  pub serve_refused :
      (takes : List (List ℕ)) (s s' : S) (msgs : List Bytes) (resps : List OutputBuffer) (n : ℕ)
      (rest : Bytes) (segments : Incoming)
      → All IsMessage msgs
      → n < 2 ^ 32
      → (n < 4) ⊎ (max_message < n) ⊎ (length rest < n)
      → Delivers segments (frames msgs ++ (be32 n ++ rest))
      → dispatch_all handlers s msgs ≡ ok (s', resps)
      → TakesAll takes resps
      → serve handlers takes s segments ≡ (frames resps, Ending.closed s')
  serve_refused takes s s' msgs resps n rest segments hm hn bad h e ht =
      subst (λ (bs : Bytes). serve handlers takes s segments ≡ (bs, Ending.closed s'))
        (append-nil (frames resps))
        (serve_front takes s s' msgs resps (be32 n ++ rest) segments [] (Ending.closed s') hm h e ht
          (λ takes' left hl.
            serve-none handlers takes' s' left (receive_refused n rest left hn bad hl)))
