-- ===== src/Ndfs/FsImage/BlockIds.antt =====
-- The block ids of a file in an image of src/ndfs/fsimage.h, from `SerializeNode` to `Load`.
use mini_hadoop.Common.{
  ℕ, true, false, ◌≡◌, refl, ap, ◌∙◌, List, [], ◌∷◌, some, arith, All, All-append, ◌==◌,
}
use mini_hadoop.Common.Decimal.{
  print_long, stoll, stoll-print_long, print_long-All, print_long-cons, is_digit,
}
use mini_hadoop.Common.Int.{ℤ, IsInt64}
use mini_hadoop.Common.Text.{Bytes}
use mini_hadoop.Common.Text.Streams.{split_on, split_on-append, split_on-last, is_blank, IsSolid}
use mini_hadoop.Ndfs.InodeTree.{INode, split_path, push_block, push_block_at}
use mini_hadoop.Ndfs.FsImage.{print_blocks, load_blocks}
use mini_hadoop.Ndfs.FsImage.Operations.{push_blocks}

pub IsSolidChar : (c : ℕ) → is_digit c ≡ true → is_blank c ≡ false
IsSolidChar c h = ground arith

pub print_blocks-All :
    (P : ℕ → Type 0) (ids : List ℤ)
    → P b'-'
    → P b','
    → ((c : ℕ) → is_digit c ≡ true → P c)
    → All P (print_blocks ids)
unfolding print_blocks
print_blocks-All P [] hm hc p = tt
print_blocks-All P (id ∷ []) hm hc p = print_long-All P id hm p
print_blocks-All P (id ∷ next ∷ ids) hm hc p =
    All-append _ (print_long id) (b',' ∷ print_blocks (next ∷ ids)) (print_long-All P id hm p)
      (hc, print_blocks-All P (next ∷ ids) hm hc p)

pub print_blocks-IsSolid : (ids : List ℤ) → IsSolid (print_blocks ids)
print_blocks-IsSolid ids = print_blocks-All _ ids refl refl IsSolidChar

pub no_comma : (id : ℤ) → All (λ c. (c == b',') ≡ false) (print_long id)
no_comma id = print_long-All _ id refl (λ c h. ground arith)

pub load_blocks-cons :
    (path : Bytes) (id : ℤ) (rest : List Bytes) (tree : INode)
    → IsInt64 id
    → load_blocks path (print_long id ∷ rest) tree ≡ load_blocks path rest (push_block tree path id)
unfolding load_blocks
load_blocks-cons path id rest tree h =
    let (c, cs, e) = print_long-cons id in
    let value : stoll (c ∷ cs) ≡ some id = rw e at (stoll-print_long id h) in
    rw e (rw (load_blocks, value) refl)

pub split_long : (id : ℤ) → split_on b',' (print_long id) ≡ print_long id ∷ []
split_long id =
    let (c, cs, e) = print_long-cons id in
    let lacks : All (λ c. (c == b',') ≡ false) (c ∷ cs) = rw e at (no_comma id) in
    rw e (split_on-last b',' c cs lacks)

pub push_block-full :
    (path : Bytes) (ps : List Bytes) (id : ℤ) (tree : INode)
    → split_path path ≡ ps
    → push_block tree path id ≡ push_block_at ps id tree
unfolding push_block
push_block-full path ps id tree e = ap (λ (qs : List Bytes). push_block_at qs id tree) e

pub load_blocks-print_blocks :
    (path : Bytes) (ps : List Bytes) (ids : List ℤ) (tree : INode)
    → split_path path ≡ ps
    → All IsInt64 ids
    → load_blocks path (split_on b',' (print_blocks ids)) tree ≡ some (push_blocks ps ids tree)
unfolding print_blocks
load_blocks-print_blocks path ps [] tree e h = unfold split_on load_blocks in refl
load_blocks-print_blocks path ps (id ∷ []) tree e (hid, h) =
    ap (λ (lines : List Bytes). load_blocks path lines tree) (split_long id)
    ∙ load_blocks-cons path id [] tree hid
    ∙ unfold load_blocks in ap some (push_block-full path ps id tree e)
load_blocks-print_blocks path ps (id ∷ next ∷ ids) tree e (hid, h) =
    ap (λ (lines : List Bytes). load_blocks path lines tree)
      (split_on-append b',' (print_long id) (print_blocks (next ∷ ids)) refl (no_comma id))
    ∙ load_blocks-cons path id (split_on b',' (print_blocks (next ∷ ids))) tree hid
    ∙ ap (load_blocks path (split_on b',' (print_blocks (next ∷ ids))))
        (push_block-full path ps id tree e)
    ∙ load_blocks-print_blocks path ps (next ∷ ids) (push_block_at ps id tree) e h
