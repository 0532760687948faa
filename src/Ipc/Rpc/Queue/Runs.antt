-- ===== src/Ipc/Rpc/Queue/Runs.antt =====
-- Runs of the queue of src/ipc/server.h.
use mini_hadoop.Common.{
  Bool-cases, ℕ, zero, suc, ◌+◌, ◌-◌, ◌*◌, ◌≤◌, ◌<◌, ◌≡◌, refl, sym, ap, ◌∙◌, true, false, Bool,
  List, [], ◌∷◌, ◌++◌, length, length-append, take, ltb, ltb→lt, arith, ◌⊎◌, inl, inr, Option-cases,
  none,
}
use mini_hadoop.Ipc.Rpc.Queue.{
  Pool, Event, accepts, notifies, wakes, tests, ends, started, accept, wake, pull, step, run,
  wake_cases, notify_cases, test_cases, end_at_cases,
}
use mini_hadoop.Ipc.Rpc.Queue.Places.{
  count, places, acceptances, workers, pull_count, places-run, workers-run, workers-step,
}

-- While a connection waits, a worker is awake or has a connection, or `notify_one` is due.
abbrev pub IsAttended : Pool → Type 0
IsAttended p = (p.pending_fds ≡ []) ⊎ (0 < p.unnotified + (length p.handled + p.awake))

wake-IsAttended :
    (p : Pool)
    → 0 < workers p
    → 0 < (wake p).unnotified + (length (wake p).handled + (wake p).awake)
wake-IsAttended p h =
    wake_cases (λ q. 0 < q.unnotified + (length q.handled + q.awake)) p (λ e. omega (arith, e, h))
      (λ _. omega arith)

step-IsAttended : (e : Event) (p : Pool) → 0 < workers p → IsAttended p → IsAttended (step e p)
unfolding step accept
step-IsAttended (accepts fd) p h i = inr (omega arith)
step-IsAttended notifies p h i =
    notify_cases IsAttended p (λ _. i)
      (λ _. inr (wake-IsAttended (record p { unnotified = p.unnotified - 1 }) h))
step-IsAttended wakes p h i = inr (wake-IsAttended p h)
step-IsAttended tests p h i =
    test_cases IsAttended p (λ _. i) (λ _ e. inl e) (λ rest fd _ _. inr (omega arith))
step-IsAttended (ends j) p h i =
    end_at_cases IsAttended p j (λ _. i) (λ fd rest e. inr (omega arith))

run-IsAttended : (es : List Event) (p : Pool) → 0 < workers p → IsAttended p → IsAttended (run es p)
unfolding run
run-IsAttended [] p h i = i
run-IsAttended (e ∷ es) p h i =
    run-IsAttended es (step e p) (omega (arith, h, workers-step e p)) (step-IsAttended e p h i)

-- What is left to do for the connections in the pool.
abbrev pub work : Pool → ℕ
work p = 3 * length p.pending_fds + 2 * length p.handled + (2 * p.unnotified + p.awake)

-- Whether the event is possible without an arrival and without a worker that wakes up by itself.
abbrev pub is_due : Event → Pool → Bool
is_due (accepts fd) p = false
is_due notifies p = ltb 0 p.unnotified
is_due wakes p = false
is_due tests p = ltb 0 p.awake
is_due (ends i) p = ltb i (length p.handled)

-- Each event is due when it happens.
abbrev pub AllDue : List Event → Pool → Type 0
AllDue [] p = Unit
AllDue (e ∷ es) p = (is_due e p ≡ true) × AllDue es (step e p)

-- Nothing is due any more.
abbrev pub IsQuiet : Pool → Type 0
IsQuiet p = (is_due notifies p ≡ false) × (is_due tests p ≡ false) × (is_due (ends 0) p ≡ false)

pull_found : (i : ℕ) (xs : List ℕ) → i < length xs → pull i xs ≡ none → ⊥
pull_found i [] h e = absurd (omega (arith, h))
pull_found zero (x ∷ xs) h e = cc
pull_found (suc i) (x ∷ xs) h e = elim (Option-cases (pull i xs)) [
  | inl k ↦ pull_found i xs (omega (arith, h)) k
  | inr (r, k) ↦ absurd (ground arith)
]

work-step : (e : Event) (p : Pool) → is_due e p ≡ true → work (step e p) < work p
unfolding step
work-step (accepts fd) p h = absurd cc
work-step wakes p h = absurd cc
work-step notifies p h =
    notify_cases (λ q. work q < work p) p (λ e. absurd (ground arith))
      (λ some_due.
        wake_cases (λ q. work q < work p) (record p { unnotified = p.unnotified - 1 })
          (λ _. omega (arith, some_due)) (λ _. omega (arith, some_due)))
work-step tests p h =
    test_cases (λ q. work q < work p) p (λ e. absurd (ground arith)) (λ k _. omega (arith, k))
      (λ rest fd k split. omega (arith, k, ap length split, length-append rest (fd ∷ [])))
work-step (ends i) p h =
    end_at_cases (λ q. work q < work p) p i
      (λ e. absurd (pull_found i p.handled (ltb→lt i (length p.handled) h) e))
      (λ fd rest e. omega (arith, (pull_count fd i p.handled rest fd e).1))

work-run : (es : List Event) (p : Pool) → AllDue es p → length es + work (run es p) ≤ work p
unfolding run
work-run [] p h = omega arith
work-run (e ∷ es) p (due, h) = omega (arith, work-run es (step e p) h, work-step e p due)

due_or_quiet : (T : Type 0) (p : Pool) → ((e : Event) → is_due e p ≡ true → T) → (IsQuiet p → T) → T
due_or_quiet T p next end = elim (Bool-cases (is_due notifies p)) [
  | inl d ↦ next notifies d
  | inr a ↦ elim (Bool-cases (is_due tests p)) [
    | inl d ↦ next tests d
    | inr b ↦ elim (Bool-cases (is_due (ends 0) p)) [
      | inl d ↦ next (ends 0) d
      | inr c ↦ end (a, b, c)
    ]
  ]
]

-- From any pool on, such events lead to one in which nothing is due.
run-IsQuiet :
    (fuel : ℕ) (p : Pool)
    → work p ≤ fuel
    → (later : List Event) × AllDue later p × IsQuiet (run later p)
unfolding run
run-IsQuiet zero p h =
    due_or_quiet _ p (λ e d. absurd (omega (arith, h, work-step e p d))) (λ q. ([], tt, q))
run-IsQuiet (suc fuel) p h =
    due_or_quiet _ p
      (λ e d.
        let (later, due, quiet) = run-IsQuiet fuel (step e p) (omega (arith, h, work-step e p d)) in
        (e ∷ later, (d, due), quiet))
      (λ q. ([], tt, q))

no_arrivals : (fd : ℕ) (es : List Event) (p : Pool) → AllDue es p → acceptances fd es ≡ 0
no_arrivals fd [] p h = refl
no_arrivals fd (accepts x ∷ es) p (due, h) = absurd cc
no_arrivals fd (wakes ∷ es) p (due, h) = absurd cc
no_arrivals fd (notifies ∷ es) p (due, h) = no_arrivals fd es (step notifies p) h
no_arrivals fd (tests ∷ es) p (due, h) = no_arrivals fd es (step tests p) h
no_arrivals fd (ends i ∷ es) p (due, h) = no_arrivals fd es (step (ends i) p) h

no_handled : (xs : List ℕ) → ltb 0 (length xs) ≡ false → xs ≡ []
no_handled [] h = refl
no_handled (x ∷ xs) h = absurd (ground arith)

quiet_pool : (p : Pool) → IsAttended p → IsQuiet p → (p.pending_fds ≡ []) × (p.handled ≡ [])
quiet_pool p i (a, b, c) =
    let none_handled = no_handled p.handled c in
    elim i [
      | inl e ↦ (e, none_handled)
      | inr more ↦ absurd (let no_length = ap length none_handled in ground (arith, no_length))
    ]

-- A server is started with at least one worker and runs in any way, with connections that arrive,
-- workers that wake up by themselves and calls that end in any order. From then on no connection
-- arrives and no worker wakes up by itself, but in any order calls of `notify_one` that are due are
-- made, workers that are awake test the queue, and calls end, until nothing of this is left to do.
-- Then this is so after a bounded number of events, no connection waits or is handled, and each was
-- closed as often as it was accepted.
pub run-closed :
    (n fd : ℕ) (es later : List Event)
    → 0 < n
    → AllDue later (run es (started n))
    → IsQuiet (run later (run es (started n)))
    → (length later ≤ work (run es (started n)))
      × ((run later (run es (started n))).pending_fds ≡ [])
      × ((run later (run es (started n))).handled ≡ [])
      × (count fd (run later (run es (started n))).closed ≡ acceptances fd es)
run-closed n fd es later h due quiet =
    let p : Pool = run es (started n) in
    let q : Pool = run later p in
    let staffed = workers-run es (started n) in
    let attended =
      run-IsAttended later p (omega (arith, staffed, h))
        (run-IsAttended es (started n) (omega (arith, h)) (inl refl)) in
    let (no_pending, none_handled) = quiet_pool q attended quiet in
    let there = places-run fd es (started n) in
    let kept = places-run fd later p in
    let none_more = no_arrivals fd later p due in
    let gone = ap (count fd) no_pending in
    let gone' = ap (count fd) none_handled in
    (
      omega (arith, work-run later p due),
      no_pending,
      none_handled,
      omega (arith, there, kept, none_more, gone, gone'),
    )

-- In any run each connection is in the queue, with a worker or closed as often as it was before or
-- was accepted, and no worker is lost or added, so no more connections are handled at once than
-- there are workers.
pub run-kept :
    (es : List Event) (p : Pool) (fd : ℕ)
    → (places fd (run es p) ≡ places fd p + acceptances fd es)
      × (workers (run es p) ≡ workers p)
      × (length (run es p).handled ≤ workers p)
run-kept es p fd = let same = workers-run es p in (places-run fd es p, same, omega (arith, same))

-- At least `k` connections wait all the time.
abbrev pub StayAbove : ℕ → List Event → Pool → Type 0
StayAbove k [] p = k ≤ length p.pending_fds
StayAbove k (e ∷ es) p = (k ≤ length p.pending_fds) × StayAbove k es (step e p)

StayAbove-here : (k : ℕ) (es : List Event) (p : Pool) → StayAbove k es p → k ≤ length p.pending_fds
StayAbove-here k [] p h = h
StayAbove-here k (e ∷ es) p h = h.0

take-append_of_le : (k : ℕ) (xs ys : List ℕ) → k ≤ length xs → take k (xs ++ ys) ≡ take k xs
take-append_of_le zero xs ys h = refl
take-append_of_le (suc k) [] ys h = absurd (omega (arith, h))
take-append_of_le (suc k) (x ∷ xs) ys h = ap (◌∷◌ x) (take-append_of_le k xs ys (omega (arith, h)))

oldest-step :
    (k : ℕ) (e : Event) (p : Pool)
    → k ≤ length p.pending_fds
    → k ≤ length (step e p).pending_fds
    → take k (step e p).pending_fds ≡ take k p.pending_fds
unfolding step accept
oldest-step k (accepts fd) p h h' = take-append_of_le k p.pending_fds (fd ∷ []) h
oldest-step k notifies p h h' =
    notify_cases (λ q. take k q.pending_fds ≡ take k p.pending_fds) p (λ _. refl)
      (λ _.
        wake_cases (λ q. take k q.pending_fds ≡ take k p.pending_fds)
          (record p { unnotified = p.unnotified - 1 }) (λ _. refl) (λ _. refl))
oldest-step k wakes p h h' =
    wake_cases (λ q. take k q.pending_fds ≡ take k p.pending_fds) p (λ _. refl) (λ _. refl)
oldest-step k tests p h h' =
    test_cases (λ q. k ≤ length q.pending_fds → take k q.pending_fds ≡ take k p.pending_fds) p
      (λ _ _. refl) (λ _ _ _. refl)
      (λ rest fd _ split k_left. rw split (sym (take-append_of_le k rest (fd ∷ []) k_left))) h'
oldest-step k (ends i) p h h' =
    end_at_cases (λ q. take k q.pending_fds ≡ take k p.pending_fds) p i (λ _. refl) (λ _ _ _. refl)

-- The connection that came last is taken first: in any run in which at least `k` connections wait
-- all the time, the `k` that have waited longest are never taken, and wait in the same order.
pub run-oldest :
    (k : ℕ) (es : List Event) (p : Pool)
    → StayAbove k es p
    → take k (run es p).pending_fds ≡ take k p.pending_fds
unfolding run
run-oldest k [] p h = refl
run-oldest k (e ∷ es) p (here, h) =
    run-oldest k es (step e p) h ∙ oldest-step k e p here (StayAbove-here k es (step e p) h)
