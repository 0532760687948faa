-- ===== src/Common/Text/Streams.antt =====
-- Text streams of the standard library: `operator>>` into a string, which ends at a blank, and
-- `std::getline`.
use Prim.Native.Nat.{ℕ}
use mathlib.Core.Path.{◌≡◌, refl, sym, ap, ◌∙◌}
use mathlib.Core.Logic.{◌⊎◌, inl, inr}
use mathlib.Core.Bool.{Bool, true, false, ◌||◌, ◌&&◌}
use mathlib.Core.Option.{Option, none, some}
use mathlib.Core.List.{List, [], ◌∷◌, ◌++◌}
use native.Mathlib.Omega.{arith}
use mini_hadoop.Common.Tests.{◌==◌, leb, if◌then◌else◌, Bool-cases}
use mini_hadoop.Common.Lists.{All}
use mini_hadoop.Common.Text.{Bytes}

-- `isspace` in the C locale.
abbrev pub is_blank : ℕ → Bool
is_blank c = c == 32 || (leb 9 c && leb c 13)

abbrev pub IsSolid : Bytes → Type 0
IsSolid = All (λ c. is_blank c ≡ false)

unfoldable pub skip_blanks : Bytes → Bytes
skip_blanks [] = []
skip_blanks (c ∷ cs) = if is_blank c then skip_blanks cs else c ∷ cs

-- The characters up to the next blank, and what is left.
unfoldable pub take_word : Bytes → Bytes × Bytes
take_word [] = ([], [])
take_word (c ∷ cs) =
    let (word, rest) = take_word cs in if is_blank c then ([], c ∷ cs) else (c ∷ word, rest)

-- `in >> word` into an empty string, with what is left; the word is empty where nothing is.
unfoldable pub next_word : Bytes → Bytes × Bytes
unfolding skip_blanks take_word
next_word s = take_word (skip_blanks s)

pub take_word-solid : (w : Bytes) → IsSolid w → take_word w ≡ (w, [])
unfolding take_word
take_word-solid [] h = refl
take_word-solid (c ∷ w) (hc, h) = rw (hc, take_word-solid w h) refl

pub take_word-append : (w rest : Bytes) → IsSolid w → take_word (w ++ (32 ∷ rest)) ≡ (w, 32 ∷ rest)
unfolding take_word
take_word-append [] rest h = refl
take_word-append (c ∷ w) rest (hc, h) = rw (hc, take_word-append w rest h) refl

-- The characters up to the next delimiter, which is taken off as well.
abbrev pub getline_loop : ℕ → Bytes → Bytes × Bytes
getline_loop delimiter [] = ([], [])
getline_loop delimiter (c ∷ cs) =
    let (line, rest) = getline_loop delimiter cs in
    if c == delimiter then ([], cs) else (c ∷ line, rest)

-- `std::getline`, which fails if nothing is left.
abbrev pub getline : ℕ → Bytes → Option (Bytes × Bytes)
getline delimiter [] = none
getline delimiter (c ∷ cs) = some (getline_loop delimiter (c ∷ cs))

abbrev pub extend_first : ℕ → List Bytes → List Bytes
extend_first c [] = (c ∷ []) ∷ []
extend_first c (line ∷ lines) = (c ∷ line) ∷ lines

-- All that `while (std::getline(in, line, delimiter))` gets.
unfoldable pub split_on : ℕ → Bytes → List Bytes
split_on delimiter [] = []
split_on delimiter (c ∷ cs) =
    let lines = split_on delimiter cs in if c == delimiter then [] ∷ lines else extend_first c lines

pub split_on-append :
    (delimiter : ℕ) (line rest : Bytes)
    → (delimiter == delimiter) ≡ true
    → All (λ c. (c == delimiter) ≡ false) line
    → split_on delimiter (line ++ (delimiter ∷ rest)) ≡ line ∷ split_on delimiter rest
unfolding split_on
split_on-append d [] rest s h = rw s refl
split_on-append d (c ∷ line) rest s (hc, h) = rw (hc, split_on-append d line rest s h) refl

pub split_on-last :
    (delimiter c : ℕ) (line : Bytes)
    → All (λ c. (c == delimiter) ≡ false) (c ∷ line)
    → split_on delimiter (c ∷ line) ≡ (c ∷ line) ∷ []
unfolding split_on
split_on-last d c [] (hc, h) = rw hc refl
split_on-last d c (x ∷ line) (hc, h) = rw (hc, split_on-last d x line h) refl

-- The first round of the loop gets the first line.
pub split_on-getline :
    (delimiter c : ℕ) (cs : Bytes)
    → split_on delimiter (c ∷ cs)
      ≡ (getline_loop delimiter (c ∷ cs)).0 ∷ split_on delimiter (getline_loop delimiter (c ∷ cs)).1
unfolding split_on
split_on-getline d c [] = ground arith
split_on-getline d c (x ∷ cs) = ground (arith, split_on-getline d x cs)

-- The character belongs to the word that starts behind it.
abbrev pub put_before : ℕ → Bytes → List Bytes → List Bytes
put_before c [] words = (c ∷ []) ∷ words
put_before c (x ∷ xs) words = if is_blank x then (c ∷ []) ∷ words else extend_first c words

-- All that `while (in >> word)` gets.
unfoldable pub words : Bytes → List Bytes
words [] = []
words (c ∷ cs) = let rest = words cs in if is_blank c then rest else put_before c cs rest

-- What the loop gets from the first word and from what is left.
abbrev pub first_word : Bytes × Bytes → List Bytes → List Bytes
first_word ([], rest) later = []
first_word (c ∷ word, rest) later = (c ∷ word) ∷ later

words-skip_blanks : (s : Bytes) → words (skip_blanks s) ≡ words s
unfolding words skip_blanks
words-skip_blanks [] = refl
words-skip_blanks (c ∷ cs) = ground (arith, words-skip_blanks cs)

words-take_word :
    (c : ℕ) (cs : Bytes)
    → is_blank c ≡ false
    → words (c ∷ cs) ≡ (take_word (c ∷ cs)).0 ∷ words (take_word (c ∷ cs)).1
unfolding words take_word
words-take_word c [] e = rw e refl
words-take_word c (x ∷ xs) e = elim (Bool-cases (is_blank x)) [
  | inl b ↦ ground arith
  | inr b ↦
      let later : words (x ∷ xs) ≡ (take_word (x ∷ xs)).0 ∷ words (take_word (x ∷ xs)).1 =
        words-take_word x xs b in
      rw (e, b) (ap (extend_first c) (rw b at later))
]

skip_blanks-cases :
    (s : Bytes)
    → (skip_blanks s ≡ [])
      ⊎ ((c : ℕ) × (cs : Bytes) × (skip_blanks s ≡ c ∷ cs) × (is_blank c ≡ false))
unfolding skip_blanks
skip_blanks-cases [] = inl refl
skip_blanks-cases (c ∷ cs) = elim (Bool-cases (is_blank c)) [
  | inl e ↦ rw e (skip_blanks-cases cs)
  | inr e ↦ inr (c, cs, rw e refl, e)
]

-- One round of the loop.
pub words-next_word : (s : Bytes) → words s ≡ first_word (next_word s) (words (next_word s).1)
unfolding next_word
words-next_word s = elim (skip_blanks-cases s) [
  | inl e ↦ sym (words-skip_blanks s) ∙ rw e (unfold words take_word in refl)
  | inr (c, cs, e, solid) ↦
      sym (words-skip_blanks s)
      ∙ rw e (words-take_word c cs solid ∙ unfold take_word in rw solid refl)
]

-- Words with a blank behind each.
pub words-append :
    (c : ℕ) (w rest : Bytes)
    → IsSolid (c ∷ w)
    → words ((c ∷ w) ++ (32 ∷ rest)) ≡ (c ∷ w) ∷ words rest
unfolding words
words-append c [] rest (hc, h) = rw hc refl
words-append c (x ∷ w) rest (hc, h) =
    rw (hc, h.0) (ap (extend_first c) (rw h.0 at (words-append x w rest h)))
