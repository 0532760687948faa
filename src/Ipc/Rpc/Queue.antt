-- ===== src/Ipc/Rpc/Queue.antt =====
-- The queue of src/ipc/server.h (`AcceptLoop`, `WorkerLoop`; src/ndfs/data_xceive_server.h has the
-- same): the connections that wait, those that a worker handles, and those that were closed, with
-- the workers that are about to test the queue and those that wait on `queue_cv_`. The mutex makes
-- each push and each test one event; a run is a list of events. An event that is not possible
-- leaves the pool as it is. That the server is told to stop is not modelled.
pub mod Places
pub mod Runs
use mini_hadoop.Common.{
  ℕ, zero, suc, ◌+◌, ◌-◌, ◌<◌, ◌≡◌, refl, true, false, List, [], ◌∷◌, ◌++◌, length, ltb, Option,
  none, some, if◌then◌else◌, ltb→lt, arith, Option-cases, Bool-cases, inl, inr, Bool,
}
use mini_hadoop.Common.Back.{pop_back, pop_back-some, pop_back-none}

-- `unnotified` counts the calls of `notify_one` that are still to come.
pub record Pool : Type 0 where
  pub pending_fds : List ℕ
  pub handled : List ℕ
  pub closed : List ℕ
  pub unnotified : ℕ
  pub awake : ℕ
  pub sleeping : ℕ

-- The threads that `Start` makes.
abbrev pub started : ℕ → Pool
started num_handlers = record {
  pending_fds = [];
  handled = [];
  closed = [];
  unnotified = 0;
  awake = num_handlers;
  sleeping = 0;
}

-- A connection is accepted; `notify_one` is called; a worker wakes up without it; a worker tests the
-- queue; the handling of the connection at a position of `handled` ends.
pub data Event : Type 0 where
  accepts : ℕ → Event
  notifies : Event
  wakes : Event
  tests : Event
  ends : ℕ → Event

-- `AcceptLoop`, up to the end of the lock.
unfoldable pub accept : ℕ → Pool → Pool
accept fd p = record p { pending_fds = p.pending_fds ++ (fd ∷ []); unnotified = suc p.unnotified }

-- A worker that waits goes on, if there is one.
unfoldable pub wake : Pool → Pool
wake p = if ltb 0 p.sleeping then record p { awake = suc p.awake; sleeping = p.sleeping - 1 } else p

-- `notify_one`
unfoldable pub notify : Pool → Pool
unfolding wake
notify p = if ltb 0 p.unnotified then wake (record p { unnotified = p.unnotified - 1 }) else p

-- `WorkerLoop`, from the test of the predicate to `HandleConnection`, or to the wait.
unfoldable pub test : Pool → Pool
test p =
    let tested : Pool = elim (pop_back p.pending_fds) [
      | none ↦ record p { awake = p.awake - 1; sleeping = suc p.sleeping }
      | some (rest, fd) ↦ record p {
        pending_fds = rest;
        handled = fd ∷ p.handled;
        awake = p.awake - 1;
      }
    ] in
    if ltb 0 p.awake then tested else p

abbrev pub pull : ℕ → List ℕ → Option (ℕ × List ℕ)
pull i [] = none
pull zero (fd ∷ fds) = some (fd, fds)
pull (suc i) (fd ∷ fds) = elim (pull i fds) [
  | none ↦ none
  | some (found, rest) ↦ some (found, fd ∷ rest)
]

-- The `close` at the end of `HandleConnection`, after which the worker tests the queue again.
unfoldable pub end_at : ℕ → Pool → Pool
end_at i p = elim (pull i p.handled) [
  | none ↦ p
  | some (fd, rest) ↦ record p { handled = rest; closed = fd ∷ p.closed; awake = suc p.awake }
]

unfoldable pub step : Event → Pool → Pool
unfolding accept wake notify test end_at
step (accepts fd) p = accept fd p
step notifies p = notify p
step wakes p = wake p
step tests p = test p
step (ends i) p = end_at i p

unfoldable pub run : List Event → Pool → Pool
run [] p = p
run (e ∷ es) p = run es (step e p)

-- What is true after an event, by what the event does.
module _ (P : Pool → Type 0) (p : Pool) where
  pub wake_cases :
      (p.sleeping ≡ 0 → P p)
      → (0 < p.sleeping → P (record p { awake = suc p.awake; sleeping = p.sleeping - 1 }))
      → P (wake p)
  unfolding wake
  wake_cases none_waits wakes_one = elim (Bool-cases (ltb 0 p.sleeping)) [
    | inl e ↦ rw e (wakes_one (ltb→lt 0 p.sleeping e))
    | inr e ↦ rw e (none_waits (ground arith))
  ]

  pub notify_cases :
      (p.unnotified ≡ 0 → P p)
      → (0 < p.unnotified → P (wake (record p { unnotified = p.unnotified - 1 })))
      → P (notify p)
  unfolding notify
  notify_cases none_due notifies_one = elim (Bool-cases (ltb 0 p.unnotified)) [
    | inl e ↦ rw e (notifies_one (ltb→lt 0 p.unnotified e))
    | inr e ↦ rw e (none_due (ground arith))
  ]

  pub test_cases :
      (p.awake ≡ 0 → P p)
      → (0 < p.awake
          → p.pending_fds ≡ []
          → P (record p { awake = p.awake - 1; sleeping = suc p.sleeping }))
      → ((rest : List ℕ) (fd : ℕ)
          → 0 < p.awake
          → p.pending_fds ≡ rest ++ (fd ∷ [])
          → P (record p { pending_fds = rest; handled = fd ∷ p.handled; awake = p.awake - 1 }))
      → P (test p)
  unfolding test
  test_cases none_awake sleeps takes = elim (Bool-cases (ltb 0 p.awake)) [
    | inr e ↦ rw e (none_awake (ground arith))
    | inl e ↦ elim (Option-cases (pop_back p.pending_fds)) [
      | inl k ↦ rw (e, k) (sleeps (ltb→lt 0 p.awake e) (pop_back-none p.pending_fds k))
      | inr ((rest, fd), k) ↦
          rw (e, k) (takes rest fd (ltb→lt 0 p.awake e) (pop_back-some p.pending_fds rest fd k))
    ]
  ]

  pub end_at_cases :
      (i : ℕ)
      → (pull i p.handled ≡ none → P p)
      → ((fd : ℕ) (rest : List ℕ)
          → pull i p.handled ≡ some (fd, rest)
          → P (record p { handled = rest; closed = fd ∷ p.closed; awake = suc p.awake }))
      → P (end_at i p)
  unfolding end_at
  end_at_cases i nothing closes = elim (Option-cases (pull i p.handled)) [
    | inl e ↦ rw (end_at, e) (nothing e)
    | inr ((fd, rest), e) ↦ rw (end_at, e) (closes fd rest e)
  ]
