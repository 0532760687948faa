-- ===== src/Ipc/Rpc/Queue/Places.antt =====
-- Where the connections and the workers of src/ipc/server.h are in a run.
use mini_hadoop.Common.{
  ℕ, zero, suc, ◌+◌, ◌-◌, ◌≡◌, refl, List, [], ◌∷◌, ◌++◌, length, ◌==◌, some, if◌then◌else◌, arith,
  Option-cases, inl, inr,
}
use mini_hadoop.Ipc.Rpc.Queue.{
  Pool, Event, accepts, notifies, wakes, tests, ends, accept, wake, pull, step, run, wake_cases,
  notify_cases, test_cases, end_at_cases,
}

-- How often a connection is in a list, and in a pool.
abbrev pub count : ℕ → List ℕ → ℕ
count fd [] = 0
count fd (x ∷ xs) = (if x == fd then 1 else 0) + count fd xs

abbrev pub places : ℕ → Pool → ℕ
places fd p = count fd p.pending_fds + (count fd p.handled + count fd p.closed)

abbrev pub acceptances : ℕ → List Event → ℕ
acceptances fd [] = 0
acceptances fd (accepts x ∷ es) = (if x == fd then 1 else 0) + acceptances fd es
acceptances fd (notifies ∷ es) = acceptances fd es
acceptances fd (wakes ∷ es) = acceptances fd es
acceptances fd (tests ∷ es) = acceptances fd es
acceptances fd (ends i ∷ es) = acceptances fd es

-- The workers, each with a connection, before a test or asleep.
abbrev pub workers : Pool → ℕ
workers p = length p.handled + (p.awake + p.sleeping)

count-append : (fd : ℕ) (xs ys : List ℕ) → count fd (xs ++ ys) ≡ count fd xs + count fd ys
count-append fd [] ys = omega arith
count-append fd (x ∷ xs) ys = ground (arith, count-append fd xs ys)

pub pull_count :
    (fd i : ℕ) (xs rest : List ℕ) (found : ℕ)
    → pull i xs ≡ some (found, rest)
    → (count fd xs ≡ (if found == fd then 1 else 0) + count fd rest)
      × (length xs ≡ suc (length rest))
pull_count fd i [] rest found e = absurd cc
pull_count fd zero (x ∷ xs) rest found e =
    let first : x ≡ found = ground arith in
    let behind : xs ≡ rest = ground arith in rw (first, behind) (refl, refl)
pull_count fd (suc i) (x ∷ xs) rest found e = elim (Option-cases (pull i xs)) [
  | inl en ↦ absurd (ground arith)
  | inr ((f, r), es) ↦
      let same : found ≡ f = ground arith in
      let front : rest ≡ x ∷ r = ground arith in
      let (ih, il) = pull_count fd i xs r f es in
      rw (same, front) (omega (arith, ih), omega (arith, il))
]

-- One event moves a connection, and only an acceptance adds one.
places-wake : (fd : ℕ) (p : Pool) → places fd (wake p) ≡ places fd p
places-wake fd p = wake_cases (λ q. places fd q ≡ places fd p) p (λ _. refl) (λ _. refl)

pub places-step :
    (fd : ℕ) (e : Event) (p : Pool) → places fd (step e p) ≡ places fd p + acceptances fd (e ∷ [])
unfolding step accept
places-step fd (accepts x) p = omega (arith, count-append fd p.pending_fds (x ∷ []))
places-step fd notifies p =
    notify_cases (λ q. places fd q ≡ places fd p + 0) p (λ _. omega arith)
      (λ _. omega (arith, places-wake fd (record p { unnotified = p.unnotified - 1 })))
places-step fd wakes p = omega (arith, places-wake fd p)
places-step fd tests p =
    test_cases (λ q. places fd q ≡ places fd p + 0) p (λ _. omega arith) (λ _ _. omega arith)
      (λ rest x _ split. rw split (omega (arith, count-append fd rest (x ∷ []))))
places-step fd (ends i) p =
    end_at_cases (λ q. places fd q ≡ places fd p + 0) p i (λ _. omega arith)
      (λ x rest e. omega (arith, (pull_count fd i p.handled rest x e).0))

workers-wake : (p : Pool) → workers (wake p) ≡ workers p
workers-wake p = wake_cases (λ q. workers q ≡ workers p) p (λ _. refl) (λ h. omega (arith, h))

pub workers-step : (e : Event) (p : Pool) → workers (step e p) ≡ workers p
unfolding step accept
workers-step (accepts x) p = refl
workers-step notifies p =
    notify_cases (λ q. workers q ≡ workers p) p (λ _. refl)
      (λ _. workers-wake (record p { unnotified = p.unnotified - 1 }))
workers-step wakes p = workers-wake p
workers-step tests p =
    test_cases (λ q. workers q ≡ workers p) p (λ _. refl) (λ h _. omega (arith, h))
      (λ rest x h _. omega (arith, h))
workers-step (ends i) p =
    end_at_cases (λ q. workers q ≡ workers p) p i (λ _. refl)
      (λ x rest e. omega (arith, (pull_count x i p.handled rest x e).1))

pub places-run :
    (fd : ℕ) (es : List Event) (p : Pool) → places fd (run es p) ≡ places fd p + acceptances fd es
unfolding run
places-run fd [] p = omega arith
places-run fd (accepts x ∷ es) p =
    omega (arith, places-run fd es (step (accepts x) p), places-step fd (accepts x) p)
places-run fd (notifies ∷ es) p =
    omega (arith, places-run fd es (step notifies p), places-step fd notifies p)
places-run fd (wakes ∷ es) p =
    omega (arith, places-run fd es (step wakes p), places-step fd wakes p)
places-run fd (tests ∷ es) p =
    omega (arith, places-run fd es (step tests p), places-step fd tests p)
places-run fd (ends i ∷ es) p =
    omega (arith, places-run fd es (step (ends i) p), places-step fd (ends i) p)

pub workers-run : (es : List Event) (p : Pool) → workers (run es p) ≡ workers p
unfolding run
workers-run [] p = refl
workers-run (e ∷ es) p = omega (arith, workers-run es (step e p), workers-step e p)
