-- ===== src/Common/Decimal.antt =====
-- Decimal numbers: `std::to_string`, `operator<<` on an integer, and `std::stoll`.
use Prim.Native.Nat.{ℕ, zero, suc, ◌+◌, ◌-◌, ◌*◌, ◌/◌, ◌%◌, ◌^◌, ◌<◌}
use mathlib.Core.Path.{◌≡◌, refl, sym, ap, ◌∙◌}
use mathlib.Core.Bool.{Bool, true, ◌&&◌}
use mathlib.Core.Option.{Option, none, some}
use mathlib.Core.Logic.{inl, inr}
use mathlib.Core.List.{List, [], ◌∷◌, ◌++◌, append_assoc, append-nil}
use native.Mathlib.Omega.{arith}
use mini_hadoop.Common.Tests.{◌==◌, ltb, leb, if◌then◌else◌, Bool-cases}
use mini_hadoop.Common.Lists.{All}
use mini_hadoop.Common.Int.{ℤ, pos, negsuc, IsInt64}
use mini_hadoop.Common.Text.{Bytes}
use mini_hadoop.Common.Text.Streams.{skip_blanks}

-- `std::to_string`: the fuel is the number itself, which the division by ten brings below ten.
unfoldable pub digits : ℕ → ℕ → Bytes
digits zero n = []
digits (suc fuel) n =
    let front = digits fuel (n / 10) in
    if ltb n 10 then (48 + n) ∷ [] else front ++ ((48 + n % 10) ∷ [])

unfoldable pub to_string : ℕ → Bytes
unfolding digits
to_string n = digits (suc n) n

-- `out << value` of an int64_t.
unfoldable pub print_long : ℤ → Bytes
unfolding to_string
print_long (pos n) = to_string n
print_long (negsuc n) = b'-' ∷ to_string (suc n)

abbrev pub is_digit : ℕ → Bool
is_digit c = leb b'0' c && leb c b'9'

-- The value of the digits at the start, after digits of the value `value`.
unfoldable pub read_digits : ℕ → Bytes → ℕ
read_digits value [] = value
read_digits value (c ∷ cs) = if is_digit c then read_digits (value * 10 + (c - b'0')) cs else value

-- A number that starts with a digit.
unfoldable pub read_number : Bytes → Option ℕ
unfolding read_digits
read_number [] = none
read_number (c ∷ cs) = if is_digit c then some (read_digits 0 (c ∷ cs)) else none

abbrev pub in_range : ℕ → Option ℕ → (ℕ → ℤ) → Option ℤ
in_range bound none f = none
in_range bound (some n) f = if ltb bound n then none else some (f n)

abbrev pub negate : ℕ → ℤ
negate zero = pos 0
negate (suc n) = negsuc n

abbrev pub signed : Bytes → Option ℤ
signed [] = none
signed (c ∷ cs) =
    if c == b'-'
    then in_range (2 ^ 63) (read_number cs) negate
    else if c == b'+'
    then in_range (2 ^ 63 - 1) (read_number cs) pos
    else in_range (2 ^ 63 - 1) (read_number (c ∷ cs)) pos

-- `std::stoll`, which throws where there is no number (`invalid_argument`) and where it is out of
-- range: `none`.
unfoldable pub stoll : Bytes → Option ℤ
unfolding skip_blanks read_number
stoll s = signed (skip_blanks s)

read_digits-digits :
    (fuel n : ℕ) (rest : Bytes)
    → n < fuel
    → read_digits 0 (digits fuel n ++ rest) ≡ read_digits n rest
unfolding digits read_digits
read_digits-digits zero n rest h = absurd (omega arith)
read_digits-digits (suc fuel) n rest h = elim (Bool-cases (ltb n 10)) [
  | inl e ↦ rw e (ground arith)
  | inr e ↦
      rw (e, append_assoc (digits fuel (n / 10)) ((48 + n % 10) ∷ []) rest)
        (read_digits-digits fuel (n / 10) ((48 + n % 10) ∷ rest) (ground arith) ∙ ground arith)
]

All-snoc :
    {A : Type 0} (P : A → Type 0) (xs : List A) (x : A) → All P xs → P x → All P (xs ++ (x ∷ []))
All-snoc P [] x h k = (k, tt)
All-snoc P (y ∷ xs) x (hy, h) k = (hy, All-snoc P xs x h k)

abbrev pub IsDigits : Bytes → Type 0
IsDigits = All (λ c. is_digit c ≡ true)

digits-IsDigits : (fuel n : ℕ) → IsDigits (digits fuel n)
unfolding digits
digits-IsDigits zero n = tt
digits-IsDigits (suc fuel) n = elim (Bool-cases (ltb n 10)) [
  | inl e ↦ rw e (ground arith, tt)
  | inr e ↦
      rw e (All-snoc _ (digits fuel (n / 10)) _ (digits-IsDigits fuel (n / 10)) (ground arith))
]

pub to_string-IsDigits : (n : ℕ) → IsDigits (to_string n)
unfolding to_string
to_string-IsDigits n = digits-IsDigits (suc n) n

-- The digits start with one.
pub to_string-cons : (n : ℕ) → (c : ℕ) × (cs : Bytes) × (to_string n ≡ c ∷ cs)
unfolding to_string digits
to_string-cons n = elim (Bool-cases (ltb n 10)) [
  | inl e ↦ (48 + n, [], rw e refl)
  | inr e ↦ rw e (snoc-cons (digits n (n / 10)) (48 + n % 10))
]
  where
    snoc-cons : (xs : Bytes) (x : ℕ) → (c : ℕ) × (cs : Bytes) × ((xs ++ (x ∷ [])) ≡ c ∷ cs)
    snoc-cons [] x = (x, [], refl)
    snoc-cons (y ∷ xs) x = (y, xs ++ (x ∷ []), refl)

read_digits-to_string :
    (n : ℕ) (rest : Bytes) → read_digits 0 (to_string n ++ rest) ≡ read_digits n rest
unfolding to_string
read_digits-to_string n rest = read_digits-digits (suc n) n rest (omega arith)

read_number-digit :
    (c : ℕ) (cs : Bytes) → is_digit c ≡ true → read_number (c ∷ cs) ≡ some (read_digits 0 (c ∷ cs))
unfolding read_number
read_number-digit c cs h = rw h refl

read_number-to_string : (n : ℕ) → read_number (to_string n) ≡ some n
read_number-to_string n =
    let (c, cs, e) = to_string-cons n in
    let digit : IsDigits (c ∷ cs) = rw e at (to_string-IsDigits n) in
    let value : read_digits 0 (to_string n) ≡ n =
      ap (read_digits 0) (sym (append-nil (to_string n)))
      ∙ read_digits-to_string n []
      ∙ unfold read_digits in refl in
    ap read_number e
    ∙ read_number-digit c cs digit.0
    ∙ ap (λ (t : Bytes). some (read_digits 0 t)) (sym e)
    ∙ ap some value

skip_blanks-digits : (c : ℕ) (cs : Bytes) → is_digit c ≡ true → skip_blanks (c ∷ cs) ≡ c ∷ cs
unfolding skip_blanks
skip_blanks-digits c cs h = ground arith

signed-digits :
    (c : ℕ) (cs : Bytes)
    → is_digit c ≡ true
    → signed (c ∷ cs) ≡ in_range (2 ^ 63 - 1) (read_number (c ∷ cs)) pos
signed-digits c cs h = ground arith

stoll-to_string : (n : ℕ) → n < 2 ^ 63 → stoll (to_string n) ≡ some (pos n)
unfolding stoll
stoll-to_string n h =
    let (c, cs, e) = to_string-cons n in
    let digit : IsDigits (c ∷ cs) = rw e at (to_string-IsDigits n) in
    let value : read_number (c ∷ cs) ≡ some n = rw e at (read_number-to_string n) in
    rw (e, skip_blanks-digits c cs digit.0, signed-digits c cs digit.0, value) (ground arith)

-- `std::stoll` reads back what `operator<<` wrote.
pub stoll-print_long : (z : ℤ) → IsInt64 z → stoll (print_long z) ≡ some z
unfolding print_long
stoll-print_long (pos n) h = stoll-to_string n h
stoll-print_long (negsuc n) h =
    unfold stoll skip_blanks in rw (read_number-to_string (suc n)) (ground arith)

IsDigits-All :
    (P : ℕ → Type 0) (s : Bytes) → ((c : ℕ) → is_digit c ≡ true → P c) → IsDigits s → All P s
IsDigits-All P [] p h = tt
IsDigits-All P (c ∷ s) p (hc, h) = (p c hc, IsDigits-All P s p h)

-- What holds of the digits and the sign holds of all that is written.
pub print_long-All :
    (P : ℕ → Type 0) (z : ℤ) → P b'-' → ((c : ℕ) → is_digit c ≡ true → P c) → All P (print_long z)
unfolding print_long
print_long-All P (pos n) hs p = IsDigits-All P (to_string n) p (to_string-IsDigits n)
print_long-All P (negsuc n) hs p =
    (hs, IsDigits-All P (to_string (suc n)) p (to_string-IsDigits (suc n)))

-- Something is always written.
pub print_long-cons : (z : ℤ) → (c : ℕ) × (cs : Bytes) × (print_long z ≡ c ∷ cs)
unfolding print_long
print_long-cons (pos n) = to_string-cons n
print_long-cons (negsuc n) = (b'-', to_string (suc n), refl)
