-- ===== src/Ndfs/InodeTree/Path.antt =====
-- `SplitPath`: what its parts are, and that it undoes the joining of names by slashes.
use mini_hadoop.Common.{
  ℕ, ◌≡◌, ◌≢◌, refl, sym, ap, ◌∙◌, List, [], ◌∷◌, ◌++◌, append_assoc, append-nil, arith,
  if◌then◌else◌, ◌==◌, All, Bool-cases, inl, inr,
}
use mini_hadoop.Common.Text.{Bytes, str_eq}
use mini_hadoop.Ndfs.InodeTree.{flush, split_loop, split_path}

abbrev pub IsPlain : ℕ → Type 0
IsPlain c = c ≢ b'/'

-- A name is not empty and has no slash.
abbrev pub IsName : Bytes → Type 0
IsName n = (n ≢ []) × All IsPlain n

-- The names, each behind a slash: how the code builds the path of a node.
abbrev pub join : List Bytes → Bytes
join [] = []
join (n ∷ ns) = b'/' ∷ (n ++ join ns)

All-snoc : (s : Bytes) (c : ℕ) → All IsPlain s → IsPlain c → All IsPlain (s ++ (c ∷ []))
All-snoc [] c h k = (k, tt)
All-snoc (x ∷ s) c (hx, h) k = (hx, All-snoc s c h k)

flush-IsName :
    (current : Bytes) (parts : List Bytes)
    → All IsPlain current
    → All IsName parts
    → All IsName (flush current parts)
flush-IsName [] parts h k = k
flush-IsName (c ∷ cs) parts h k = ((ground arith, h), k)

split_loop-IsName : (s current : Bytes) → All IsPlain current → All IsName (split_loop s current)
unfolding split_loop
split_loop-IsName [] current h = flush-IsName current [] h tt
split_loop-IsName (c ∷ cs) current h = elim (Bool-cases (c == b'/')) [
  | inl e ↦ rw e (flush-IsName current _ h (split_loop-IsName cs [] tt))
  | inr e ↦ rw e (split_loop-IsName cs (current ++ (c ∷ [])) (All-snoc current c h (ground arith)))
]

-- Every part of a path is a name.
pub split_path-IsName : (path : Bytes) → All IsName (split_path path)
unfolding split_path
split_path-IsName [] = tt
split_path-IsName (c ∷ cs) = elim (Bool-cases (str_eq (c ∷ cs) (b'/' ∷ []))) [
  | inl e ↦ rw e tt
  | inr e ↦ rw e (split_loop-IsName (if c == b'/' then cs else c ∷ cs) [] tt)
]

split_loop-name :
    (n rest current : Bytes)
    → All IsPlain n
    → split_loop (n ++ rest) current ≡ split_loop rest (current ++ n)
unfolding split_loop
split_loop-name [] rest current h = ap (split_loop rest) (sym (append-nil current))
split_loop-name (c ∷ n) rest current (hc, h) = elim (Bool-cases (c == b'/')) [
  | inl e ↦ absurd (ground arith)
  | inr e ↦ rw e (
      split_loop-name n rest (current ++ (c ∷ [])) h
      ∙ ap (split_loop rest) (append_assoc current (c ∷ []) n))
]

split_loop-join :
    (n : Bytes) (ns : List Bytes) → IsName n → All IsName ns → split_loop (join ns) n ≡ n ∷ ns
unfolding split_loop
split_loop-join [] ns h k = absurd (h.0 refl)
split_loop-join (c ∷ n) [] h k = refl
split_loop-join (c ∷ n) (m ∷ ns) h (hm, hns) =
    ap (◌∷◌ (c ∷ n)) (split_loop-name m (join ns) [] hm.1 ∙ split_loop-join m ns hm hns)

-- Names joined by slashes are split into the same names.
pub split_path-join : (ns : List Bytes) → All IsName ns → split_path (join ns) ≡ ns
unfolding split_path
split_path-join [] h = refl
split_path-join ([] ∷ ns) (h, k) = absurd (h.0 refl)
split_path-join ((c ∷ n) ∷ ns) (h, k) =
    unfold str_eq in (split_loop-name (c ∷ n) (join ns) [] h.1 ∙ split_loop-join (c ∷ n) ns h k)
