-- ===== src/Common/Assoc.antt =====
-- The maps of the program as association lists, over a test of keys.
use mini_hadoop.Common.Tests.{if◌then◌else◌, Bool-cases}
use mini_hadoop.Common.Lists.{All}
use mathlib.Core.Path.{◌≡◌, refl, sym, subst}
use mathlib.Core.Logic.{◌↔◌, inl, inr}
use mathlib.Core.Bool.{Bool, true}
use mathlib.Core.Option.{Option, none, some}
use mathlib.Core.List.{List, [], ◌∷◌}
use native.Mathlib.Omega.{arith}

abbrev pub Map : Type 0 → Type 0 → Type 0
Map K V = List (K × V)

module _ {K V : Type 0} (eq : K → K → Bool) where
  -- `find`
  unfoldable pub lookup : K → Map K V → Option V
  lookup k [] = none
  lookup k ((j, v) ∷ m) = if eq j k then some v else lookup k m

  -- `operator[]` on the left of an assignment.
  unfoldable pub insert : K → V → Map K V → Map K V
  insert k v [] = (k, v) ∷ []
  insert k v ((j, w) ∷ m) = if eq j k then (j, v) ∷ m else (j, w) ∷ insert k v m

  unfoldable pub erase : K → Map K V → Map K V
  erase k [] = []
  erase k ((j, w) ∷ m) = if eq j k then m else (j, w) ∷ erase k m

  -- Each key stands once, as in every map of the standard library.
  abbrev pub DistinctKeys : Map K V → Type 0
  DistinctKeys [] = Unit
  DistinctKeys ((k, _) ∷ m) = (lookup k m ≡ none) × DistinctKeys m

module _ {K V : Type 0} (eq : K → K → Bool) (eq_iff : (a b : K) → (eq a b ≡ true) ↔ (a ≡ b)) where
  pub lookup-insert :
      (k j : K) (v : V) (m : Map K V)
      → lookup eq j (insert eq k v m) ≡ (if eq k j then some v else lookup eq j m)
  unfolding lookup insert
  lookup-insert k j v [] = refl
  lookup-insert k j v ((i, w) ∷ m) =
      ground (arith, eq_iff i k, eq_iff i j, eq_iff k j, lookup-insert k j v m)

  pub lookup-erase :
      (k j : K) (m : Map K V)
      → DistinctKeys eq m
      → lookup eq j (erase eq k m) ≡ (if eq k j then none else lookup eq j m)
  unfolding lookup erase
  lookup-erase k j [] h = ground arith
  lookup-erase k j ((i, w) ∷ m) h =
      ground (arith, h.0, eq_iff i k, eq_iff i j, eq_iff k j, lookup-erase k j m h.1)

  pub insert-DistinctKeys :
      (k : K) (v : V) (m : Map K V) → DistinctKeys eq m → DistinctKeys eq (insert eq k v m)
  unfolding insert
  insert-DistinctKeys k v [] h = (unfold lookup in refl, tt)
  insert-DistinctKeys k v ((j, w) ∷ m) h =
      ground
        (arith, h.0, insert-DistinctKeys k v m h.1, lookup-insert k j v m, eq_iff k j, eq_iff j k)

  pub erase-DistinctKeys :
      (k : K) (m : Map K V) → DistinctKeys eq m → DistinctKeys eq (erase eq k m)
  unfolding erase
  erase-DistinctKeys k [] h = tt
  erase-DistinctKeys k ((j, w) ∷ m) h =
      ground (arith, h.0, h.1, erase-DistinctKeys k m h.1, lookup-erase k j m h.1)

-- A predicate on the entries.
pub All-insert :
    {K V : Type 0} (eq : K → K → Bool) (eq_iff : (a b : K) → (eq a b ≡ true) ↔ (a ≡ b))
    (P : K × V → Type 0) (k : K) (v : V) (m : Map K V)
    → All P m
    → P (k, v)
    → All P (insert eq k v m)
unfolding insert
All-insert eq eq_iff P k v [] h hv = (hv, tt)
All-insert {K} eq eq_iff P k v ((j, w) ∷ m) (hj, h) hv = elim (Bool-cases (eq j k)) [
  | inl e ↦
      let same : k ≡ j = sym ((eq_iff j k).0 e) in rw e (subst (λ (i : K). P (i, v)) same hv, h)
  | inr e ↦ rw e (hj, All-insert eq eq_iff P k v m h hv)
]

pub All-erase :
    {K V : Type 0} (eq : K → K → Bool) (P : K × V → Type 0) (k : K) (m : Map K V)
    → All P m
    → All P (erase eq k m)
unfolding erase
All-erase eq P k [] h = tt
All-erase eq P k ((j, w) ∷ m) (hj, h) = elim (Bool-cases (eq j k)) [
  | inl e ↦ rw e h
  | inr e ↦ rw e (hj, All-erase eq P k m h)
]

pub All-lookup :
    {K V : Type 0} (eq : K → K → Bool) (eq_iff : (a b : K) → (eq a b ≡ true) ↔ (a ≡ b))
    (P : K × V → Type 0) (k : K) (m : Map K V) (v : V)
    → All P m
    → lookup eq k m ≡ some v
    → P (k, v)
unfolding lookup
All-lookup eq eq_iff P k [] v h e = cc
All-lookup {K} {V} eq eq_iff P k ((j, w) ∷ m) v (hj, h) e = elim (Bool-cases (eq j k)) [
  | inl s ↦
      let same : w ≡ v = ground arith in
      subst (λ (i : K). P (i, v)) ((eq_iff j k).0 s) (subst (λ (x : V). P (j, x)) same hj)
  | inr s ↦ All-lookup eq eq_iff P k m v h (ground arith)
]
