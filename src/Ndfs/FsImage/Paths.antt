-- ===== src/Ndfs/FsImage/Paths.antt =====
-- The paths of nodes whose names an image of src/ndfs/fsimage.h can hold.
use mini_hadoop.Common.{
  ℕ, suc, false, ◌≡◌, refl, sym, ap, ◌∙◌, List, [], ◌∷◌, ◌++◌, append_assoc, append-nil, none, some,
  arith, if◌then◌else◌, All, All-append, All-weaken, length, take-append, ◌==◌,
}
use mini_hadoop.Common.Text.{Bytes, codes, str_eq}
use mini_hadoop.Common.Text.Streams.{IsSolid}
use mini_hadoop.Ndfs.InodeTree.{INode, split_path, mkdirs, mkdirs_at}
use mini_hadoop.Ndfs.InodeTree.Path.{IsPlain, IsName, join, split_path-join}
use mini_hadoop.Ndfs.FsImage.{rfind, get_parent_dir}
use mini_hadoop.Ndfs.FsImage.Operations.{add_directory}

-- A name that an image can hold.
abbrev pub IsStorableName : Bytes → Type 0
IsStorableName n = IsName n × IsSolid n

abbrev pub full_path : List Bytes → Bytes → Bytes
full_path ps n = join ps ++ (b'/' ∷ n)

pub join-snoc : (ps : List Bytes) (n : Bytes) → join (ps ++ (n ∷ [])) ≡ full_path ps n
join-snoc [] n = ap (◌∷◌ b'/') (append-nil n)
join-snoc (p ∷ ps) n =
    ap (λ (t : Bytes). b'/' ∷ (p ++ t)) (join-snoc ps n)
    ∙ ap (◌∷◌ b'/') (sym (append_assoc p (join ps) (b'/' ∷ n)))

pub names : (ps : List Bytes) → All IsStorableName ps → All IsName ps
names ps h = All-weaken IsStorableName IsName ps (λ n k. k.0) h

pub split_path-full_path :
    (ps : List Bytes) (n : Bytes)
    → All IsStorableName ps
    → IsStorableName n
    → split_path (full_path ps n) ≡ ps ++ (n ∷ [])
split_path-full_path ps n h k =
    ap split_path (sym (join-snoc ps n))
    ∙ split_path-join (ps ++ (n ∷ [])) (All-append _ ps (n ∷ []) (names ps h) (k.0, tt))

pub join-IsSolid : (ps : List Bytes) → All IsStorableName ps → IsSolid (join ps)
join-IsSolid [] h = tt
join-IsSolid (p ∷ ps) (hp, h) = (refl, All-append _ p (join ps) hp.1 (join-IsSolid ps h))

pub full_path-IsSolid :
    (ps : List Bytes) (n : Bytes)
    → All IsStorableName ps
    → IsStorableName n
    → IsSolid (full_path ps n)
full_path-IsSolid ps n h k = All-append _ (join ps) (b'/' ∷ n) (join-IsSolid ps h) (refl, k.1)

-- A full path starts with a slash and a character.
pub full_path-cons :
    (ps : List Bytes) (n : Bytes)
    → All IsStorableName ps
    → IsStorableName n
    → (c : ℕ) × (cs : Bytes) × (full_path ps n ≡ b'/' ∷ c ∷ cs)
full_path-cons [] [] h k = absurd (k.0.0 refl)
full_path-cons [] (c ∷ cs) h k = (c, cs, refl)
full_path-cons ([] ∷ ps) n (h, _) k = absurd (h.0.0 refl)
full_path-cons ((c ∷ cs) ∷ ps) n h k = (c, (cs ++ join ps) ++ (b'/' ∷ n), refl)

pub rfind-plain : (n : Bytes) → All IsPlain n → rfind b'/' n ≡ none
unfolding rfind
rfind-plain [] h = refl
rfind-plain (c ∷ n) (hc, h) = rw (rfind-plain n h) (ground arith)

pub rfind-append :
    (xs n : Bytes) → rfind b'/' n ≡ none → rfind b'/' (xs ++ (b'/' ∷ n)) ≡ some (length xs)
unfolding rfind
rfind-append [] n h = rw h refl
rfind-append (x ∷ xs) n h = rw (rfind-append xs n h) refl

pub get_parent_dir-root : (n : Bytes) → All IsPlain n → get_parent_dir (b'/' ∷ n) ≡ codes "/"
unfolding get_parent_dir
get_parent_dir-root n h = rw (rfind-append [] n (rfind-plain n h)) refl

pub get_parent_dir-full_path :
    (p : Bytes) (ps : List Bytes) (n : Bytes)
    → All IsPlain n
    → get_parent_dir (full_path (p ∷ ps) n) ≡ join (p ∷ ps)
unfolding get_parent_dir
get_parent_dir-full_path p ps n h =
    let behind : (suc (length (p ++ join ps)) == 0) ≡ false = ground arith in
    rw (rfind-append (join (p ∷ ps)) n (rfind-plain n h), behind)
      (take-append (join (p ∷ ps)) (b'/' ∷ n))

-- The parent directory is made, or there.
pub made_parent :
    (ps : List Bytes) (n : Bytes) (tree : INode)
    → All IsStorableName ps
    → IsStorableName n
    → (if str_eq (get_parent_dir (full_path ps n)) (codes "/")
        then tree
        else (mkdirs tree (get_parent_dir (full_path ps n))).0)
      ≡ add_directory ps tree
made_parent [] n tree h k = rw (get_parent_dir-root n k.0.1) (unfold str_eq mkdirs_at in refl)
made_parent ([] ∷ ps) n tree (h, _) k = absurd (h.0.0 refl)
made_parent ((c ∷ cs) ∷ ps) n tree h k = rw (get_parent_dir-full_path (c ∷ cs) ps n k.0.1) (
    unfold str_eq mkdirs in
    ap (λ (qs : List Bytes). (mkdirs_at qs tree).0)
      (split_path-join ((c ∷ cs) ∷ ps) (names ((c ∷ cs) ∷ ps) h)))
