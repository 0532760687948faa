-- ===== src/Ipc/Rpc/Examples.antt =====
-- A server of src/ipc/server.h with one method that counts up by the number it is sent.
use mini_hadoop.Common.{
  length, ◌+◌, ◌≤◌, ℕ, ◌≡◌, refl, true, List, [], ◌∷◌, ◌++◌, arith, throws, past_end, ok,
}
use mini_hadoop.Common.Int.{to_u32, of_u32, ℤ, pos, ◌+ℤ◌}
use mini_hadoop.Common.Assoc.{lookup}
use mini_hadoop.Common.Text.{Bytes}
use mini_hadoop.Status.{Status}
use mini_hadoop.Io.Buffer.{◌>>=◌, return, read_int, write_string, be32}
use mini_hadoop.Ipc.Socket.Stream.{concat}
use mini_hadoop.Ipc.Socket.{Incoming, read_full, write_full}
use mini_hadoop.Ipc.Rpc.{receive, lookup, Handlers, frame, dispatch, unknown_method, Ending, serve}
use mini_hadoop.Ipc.Rpc.Client.{request, call_raw}
use mini_hadoop.Ipc.Rpc.Serving.{serve-dispatch_all, serve_terminated}
use mini_hadoop.Ipc.Rpc.Requests.{dispatch_all, frames}
use mini_hadoop.Ipc.Rpc.Calls.{call_raw-serve}
use mini_hadoop.Ipc.Rpc.Queue.{
  Pool, Event, started, accepts, notifies, tests, ends, run, step, accept, notify, wake, test,
  end_at,
}
use mini_hadoop.Ipc.Rpc.Queue.Places.{count, places, workers}
use mini_hadoop.Ipc.Rpc.Queue.Runs.{
  AllDue, IsQuiet, StayAbove, work, run-closed, run-kept, run-oldest,
}
use mini_hadoop.Common.Back.{pop_back}
use mini_hadoop.Common.{take}

abbrev counter : Handlers ℤ
counter = (pos 7, λ s. read_int >>= λ n. return (s +ℤ n, be32 1)) ∷ []

abbrev up_by_two : Bytes
up_by_two = 0 ∷ 0 ∷ 0 ∷ 7 ∷ 0 ∷ 0 ∷ 0 ∷ 2 ∷ []

abbrev unknown : Bytes
unknown = 0 ∷ 0 ∷ 0 ∷ 9 ∷ []

-- The two requests in their frames, in three segments.
abbrev segments : Incoming
segments =
    (0 ∷ 0 ∷ [])
    ∷ (0 ∷ 8 ∷ 0 ∷ 0 ∷ 0 ∷ 7 ∷ 0 ∷ [])
    ∷ (0 ∷ 0 ∷ 2 ∷ 0 ∷ 0 ∷ 0 ∷ 4 ∷ 0 ∷ 0 ∷ 0 ∷ 9 ∷ [])
    ∷ []

abbrev replies : List Bytes
replies = be32 1 ∷ unknown_method ∷ []

handled : dispatch_all counter (pos 3) (up_by_two ∷ unknown ∷ []) ≡ ok (pos 5, replies)
unfolding dispatch_all dispatch read_int lookup of_u32
handled = refl

abbrev takes : List (List ℕ)
takes = (100 ∷ []) ∷ (10 ∷ 100 ∷ []) ∷ []

taken :
    (write_full (100 ∷ []) (frame (be32 1)) ≡ (frame (be32 1), true))
    × (write_full (10 ∷ 100 ∷ []) (frame unknown_method) ≡ (frame unknown_method, true))
unfolding write_full frame write_string
taken = (refl, refl)

cut : concat segments ≡ frames (up_by_two ∷ unknown ∷ [])
unfolding frame to_u32 of_u32
cut = refl

serve-dispatch_all_example :
    serve counter takes (pos 3) segments ≡ (frames replies, Ending.closed (pos 5))
serve-dispatch_all_example =
    serve-dispatch_all counter takes (pos 3) (pos 5) (up_by_two ∷ unknown ∷ []) replies segments
      ((omega arith, omega arith), ((omega arith, omega arith), tt))
      (cut, ((λ e. cc), ((λ e. cc), ((λ e. cc), tt)))) handled (taken.0, (taken.1, tt))

-- A request that is too short for its handler, and one of the length 3.
abbrev short : Bytes
short = 0 ∷ 0 ∷ 0 ∷ 7 ∷ 0 ∷ []

abbrev broken : Bytes → Incoming
broken bs = (0 ∷ 0 ∷ 0 ∷ []) ∷ bs ∷ []

short_fails : dispatch counter (pos 3) short ≡ throws past_end
unfolding dispatch read_int lookup of_u32
short_fails = refl

handled_none : dispatch_all counter (pos 3) [] ≡ ok (pos 3, [])
unfolding dispatch_all
handled_none = refl

cut_short : concat (broken (5 ∷ short)) ≡ frame short ++ []
unfolding frame to_u32 of_u32
cut_short = refl

serve_terminated_example :
    serve counter takes (pos 3) (broken (5 ∷ short)) ≡ ([], Ending.terminated past_end)
serve_terminated_example =
    serve_terminated counter takes (pos 3) (pos 3) [] [] short [] past_end (broken (5 ∷ short)) tt
      (omega arith, omega arith) (cut_short, ((λ e. cc), ((λ e. cc), tt))) handled_none tt
      short_fails

abbrev sent : Incoming
sent = (0 ∷ 0 ∷ 0 ∷ 8 ∷ []) ∷ up_by_two ∷ []

abbrev returned : Incoming
returned = (0 ∷ 0 ∷ 0 ∷ 4 ∷ 0 ∷ 0 ∷ []) ∷ (0 ∷ 1 ∷ []) ∷ []

call_handled : dispatch counter (pos 3) (request (pos 7) (be32 2)) ≡ ok (pos 5, be32 1)
unfolding dispatch read_int lookup of_u32 request to_u32
call_handled = refl

call_taken :
    write_full (100 ∷ []) (frame (request (pos 7) (be32 2)))
    ≡ (frame (request (pos 7) (be32 2)), true)
unfolding write_full frame request
call_taken = refl

call_sent : concat sent ≡ (call_raw (100 ∷ []) returned (pos 7) (be32 2)).0
unfolding call_raw write_full frame request to_u32 of_u32
call_sent = refl

call_returned : concat returned ≡ (serve counter ((100 ∷ []) ∷ []) (pos 3) sent).0
unfolding serve receive read_full dispatch read_int lookup of_u32 to_u32 write_full frame
call_returned = refl

call_raw-serve_example :
    ((serve counter ((100 ∷ []) ∷ []) (pos 3) sent).1 ≡ Ending.closed (pos 5))
    × ((call_raw (100 ∷ []) returned (pos 7) (be32 2)).1.0 ≡ Status.ok)
    × ((call_raw (100 ∷ []) returned (pos 7) (be32 2)).1.1 ≡ be32 1)
call_raw-serve_example =
    call_raw-serve counter (pos 7) (be32 2) (pos 3) (pos 5) (be32 1) (100 ∷ []) (100 ∷ []) sent
      returned (omega arith) (omega arith) call_handled call_taken taken.0
      (call_sent, ((λ e. cc), ((λ e. cc), tt))) (call_returned, ((λ e. cc), ((λ e. cc), tt)))

-- Two connections wait, one is handled by one of two workers.
abbrev crowded : Pool
crowded = record {
  pending_fds = 4 ∷ 5 ∷ [];
  handled = 3 ∷ [];
  closed = [];
  unnotified = 0;
  awake = 1;
  sleeping = 0;
}

run-kept_example :
    (places 6 (run (accepts 6 ∷ tests ∷ tests ∷ []) crowded) ≡ 0 + 1)
    × (workers (run (accepts 6 ∷ tests ∷ tests ∷ []) crowded) ≡ 2)
    × (length (run (accepts 6 ∷ tests ∷ tests ∷ []) crowded).handled ≤ 2)
run-kept_example = run-kept (accepts 6 ∷ tests ∷ tests ∷ []) crowded 6

-- Two workers fall asleep, and two connections arrive.
abbrev arrivals : List Event
arrivals = tests ∷ tests ∷ accepts 4 ∷ notifies ∷ accepts 5 ∷ notifies ∷ []

abbrev rest : List Event
rest = tests ∷ tests ∷ ends 1 ∷ tests ∷ ends 0 ∷ tests ∷ []

rest-AllDue : AllDue rest (run arrivals (started 2))
unfolding run step accept notify wake test end_at pop_back
rest-AllDue = (refl, (refl, (refl, (refl, (refl, (refl, tt))))))

rest-IsQuiet : IsQuiet (run rest (run arrivals (started 2)))
unfolding run step accept notify wake test end_at pop_back
rest-IsQuiet = (refl, refl, refl)

run-closed_example :
    (6 ≤ work (run arrivals (started 2)))
    × ((run rest (run arrivals (started 2))).pending_fds ≡ [])
    × ((run rest (run arrivals (started 2))).handled ≡ [])
    × (count 5 (run rest (run arrivals (started 2))).closed ≡ 1)
run-closed_example = run-closed 2 5 arrivals rest (omega arith) rest-AllDue rest-IsQuiet

-- While two more connections arrive, the first that waits is not taken.
abbrev overload : List Event
overload = accepts 6 ∷ tests ∷ ends 0 ∷ accepts 7 ∷ tests ∷ []

overload-StayAbove : StayAbove 1 overload crowded
unfolding step accept test end_at pop_back
overload-StayAbove =
    (omega arith, (omega arith, (omega arith, (omega arith, (omega arith, omega arith)))))

run-oldest_example : take 1 (run overload crowded).pending_fds ≡ 4 ∷ []
run-oldest_example = run-oldest 1 overload crowded overload-StayAbove
