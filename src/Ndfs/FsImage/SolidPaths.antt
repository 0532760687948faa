-- ===== src/Ndfs/FsImage/SolidPaths.antt =====
-- The parts of a path without blanks, for the image of src/ndfs/fsimage.h.
use mini_hadoop.Common.{
  ℕ, List, [], ◌∷◌, ◌++◌, ◌==◌, if◌then◌else◌, All, All-append, Bool-cases, inl, inr,
}
use mini_hadoop.Common.Text.{Bytes, str_eq}
use mini_hadoop.Common.Text.Streams.{IsSolid}
use mini_hadoop.Ndfs.InodeTree.{flush, split_loop, split_path}
use mini_hadoop.Ndfs.InodeTree.Path.{IsName, split_path-IsName}
use mini_hadoop.Ndfs.FsImage.Paths.{IsStorableName}

-- The parts of a path without blanks have none.
pub flush-IsSolid :
    (current : Bytes) (parts : List Bytes)
    → IsSolid current
    → All IsSolid parts
    → All IsSolid (flush current parts)
flush-IsSolid [] parts h k = k
flush-IsSolid (c ∷ cs) parts h k = (h, k)

pub split_loop-IsSolid :
    (s current : Bytes) → IsSolid s → IsSolid current → All IsSolid (split_loop s current)
unfolding split_loop
split_loop-IsSolid [] current hs h = flush-IsSolid current [] h tt
split_loop-IsSolid (c ∷ cs) current (hc, hs) h = elim (Bool-cases (c == b'/')) [
  | inl e ↦ rw e (flush-IsSolid current _ h (split_loop-IsSolid cs [] hs tt))
  | inr e ↦
      rw e
        (split_loop-IsSolid cs (current ++ (c ∷ [])) hs (All-append _ current (c ∷ []) h (hc, tt)))
]

pub without_slash :
    (c : ℕ) (cs : Bytes) → IsSolid (c ∷ cs) → IsSolid (if c == b'/' then cs else c ∷ cs)
without_slash c cs h = elim (Bool-cases (c == b'/')) [ inl e ↦ rw e h.1 | inr e ↦ rw e h ]

pub split_path-IsSolid : (path : Bytes) → IsSolid path → All IsSolid (split_path path)
unfolding split_path
split_path-IsSolid [] h = tt
split_path-IsSolid (c ∷ cs) h = elim (Bool-cases (str_eq (c ∷ cs) (b'/' ∷ []))) [
  | inl e ↦ rw e tt
  | inr e ↦
      rw e (split_loop-IsSolid (if c == b'/' then cs else c ∷ cs) [] (without_slash c cs h) tt)
]

pub both : (ps : List Bytes) → All IsName ps → All IsSolid ps → All IsStorableName ps
both [] h k = tt
both (p ∷ ps) (hp, h) (kp, k) = ((hp, kp), both ps h k)

pub split_path-IsStorableName : (path : Bytes) → IsSolid path → All IsStorableName (split_path path)
split_path-IsStorableName path h =
    both (split_path path) (split_path-IsName path) (split_path-IsSolid path h)
