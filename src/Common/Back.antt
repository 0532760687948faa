-- ===== src/Common/Back.antt =====
-- The end of a vector that is used as a stack, as in src/mapred/dist_job_tracker.h and
-- src/ipc/server.h.
use mini_hadoop.Common.Tests.{Option-cases}
use native.Mathlib.Omega.{arith}
use mathlib.Core.Logic.{inl, inr}
use mathlib.Core.Path.{◌≡◌, refl, sym, ap}
use mathlib.Core.Option.{Option, none, some}
use mathlib.Core.List.{List, [], ◌∷◌, ◌++◌}

-- `back` and `pop_back`; `none` where the vector is empty.
unfoldable pub pop_back : {A : Type 0} → List A → Option (List A × A)
pop_back [] = none
pop_back (x ∷ xs) = elim (pop_back xs) [
  | none ↦ some ([], x)
  | some (front, last) ↦ some (x ∷ front, last)
]

pub pop_back-snoc : {A : Type 0} (xs : List A) (x : A) → pop_back (xs ++ (x ∷ [])) ≡ some (xs, x)
unfolding pop_back
pop_back-snoc [] x = refl
pop_back-snoc (y ∷ xs) x = rw (pop_back-snoc xs x) refl

pub pop_back-none : {A : Type 0} (xs : List A) → pop_back xs ≡ none → xs ≡ []
unfolding pop_back
pop_back-none [] e = refl
pop_back-none (x ∷ xs) e = elim (Option-cases (pop_back xs)) [
  | inl k ↦ absurd (ground arith)
  | inr (r, k) ↦ absurd (ground arith)
]

pub pop_back-some :
    {A : Type 0} (xs ys : List A) (t : A) → pop_back xs ≡ some (ys, t) → xs ≡ ys ++ (t ∷ [])
unfolding pop_back
pop_back-some [] ys t e = cc
pop_back-some (x ∷ xs) ys t e = elim (Option-cases (pop_back xs)) [
  | inl k ↦
      let front : ys ≡ [] = ground arith in
      let last : x ≡ t = ground arith in rw (front, last, pop_back-none xs k) refl
  | inr ((zs, u), k) ↦
      let front : ys ≡ x ∷ zs = ground arith in
      let last : u ≡ t = ground arith in rw (front, sym last) (ap (◌∷◌ x) (pop_back-some xs zs u k))
]
