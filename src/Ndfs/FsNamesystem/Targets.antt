-- ===== src/Ndfs/FsNamesystem/Targets.antt =====
-- `ChooseTargets` of src/ndfs/fs_namesystem.h.
use mini_hadoop.Common.{
  ℕ, zero, suc, ◌+◌, ◌<◌, ◌≡◌, refl, sym, ◌∙◌, true, false, ◌||◌, List, [], ◌∷◌, ◌++◌, map, none,
  leb, length, length-append, take, append-nil, append_assoc, arith, All,
}
use mini_hadoop.Common.Text.{Bytes, str_eq, str_eq_iff}
use mini_hadoop.Common.Assoc.{Map, lookup, DistinctKeys}
use mini_hadoop.Ndfs.FsNamesystem.{FsNamesystem, DataNodeInfo, choose_loop, choose_targets}
use mini_hadoop.Ndfs.FsNamesystem.DataNodes.{has_datanode}

abbrev pub infos : Map Bytes DataNodeInfo → List DataNodeInfo
infos = map (λ (_, info). info)

-- `k` more targets are chosen after the next.
choose_loop-take :
    (k r : ℕ) (m : Map Bytes DataNodeInfo) (targets : List DataNodeInfo)
    → r ≡ length targets + suc k
    → choose_loop r m targets ≡ targets ++ take (suc k) (infos m)
unfolding choose_loop
choose_loop-take k r [] targets h = sym (append-nil targets)
choose_loop-take zero r ((_, info) ∷ m) targets h =
    let full : leb r (length (targets ++ (info ∷ []))) ≡ true =
      ground (arith, length-append targets (info ∷ [])) in
    rw full
choose_loop-take (suc k) r ((_, info) ∷ m) targets h =
    let open_still : leb r (length (targets ++ (info ∷ []))) ≡ false =
      ground (arith, length-append targets (info ∷ [])) in
    rw open_still (
      choose_loop-take k r m (targets ++ (info ∷ []))
        (omega (arith, length-append targets (info ∷ [])))
      ∙ append_assoc targets (info ∷ []) (take (suc k) (infos m)))

-- For a positive `replication` the targets are the first `replication` DataNodes, or all of them.
pub choose_targets-take :
    (r : ℕ) (s : FsNamesystem) → 0 < r → choose_targets r s ≡ take r (infos s.datanodes)
unfolding choose_targets
choose_targets-take zero s h = absurd (omega arith)
choose_targets-take (suc k) s h = choose_loop-take k (suc k) s.datanodes [] (omega arith)

abbrev pub KeysAreNames : Map Bytes DataNodeInfo → Type 0
KeysAreNames = All (λ (k, info). info.dn_name ≡ k)

abbrev pub DistinctNames : List DataNodeInfo → Type 0
DistinctNames [] = Unit
DistinctNames (dn ∷ dns) = (has_datanode dn.dn_name dns ≡ false) × DistinctNames dns

has_datanode-take :
    (n : ℕ) (k : Bytes) (m : Map Bytes DataNodeInfo)
    → KeysAreNames m
    → lookup str_eq k m ≡ none
    → has_datanode k (take n (infos m)) ≡ false
unfolding has_datanode lookup
has_datanode-take zero k m h e = refl
has_datanode-take (suc n) k [] h e = refl
has_datanode-take (suc n) k ((j, info) ∷ m) (hj, h) e =
    ground (arith, has_datanode-take n k m h, str_eq_iff j k, str_eq_iff info.dn_name k)

take-DistinctNames :
    (n : ℕ) (m : Map Bytes DataNodeInfo)
    → DistinctKeys str_eq m
    → KeysAreNames m
    → DistinctNames (take n (infos m))
take-DistinctNames zero m d h = tt
take-DistinctNames (suc n) [] d h = tt
take-DistinctNames (suc n) ((j, info) ∷ m) (fresh, d) (hj, h) =
    (rw hj (has_datanode-take n j m h fresh), take-DistinctNames n m d h)

pub choose_targets-DistinctNames :
    (r : ℕ) (s : FsNamesystem)
    → 0 < r
    → DistinctKeys str_eq s.datanodes
    → KeysAreNames s.datanodes
    → DistinctNames (choose_targets r s)
choose_targets-DistinctNames r s h d k =
    rw (choose_targets-take r s h) (take-DistinctNames r s.datanodes d k)

has_datanode-snoc :
    (n : Bytes) (dns : List DataNodeInfo) (dn : DataNodeInfo)
    → has_datanode n (dns ++ (dn ∷ [])) ≡ (has_datanode n dns || str_eq dn.dn_name n)
unfolding has_datanode
has_datanode-snoc n [] dn = ground arith
has_datanode-snoc n (d ∷ dns) dn = ground (arith, has_datanode-snoc n dns dn)

-- A node that is not in the list may be added to it.
pub snoc-DistinctNames :
    (dns : List DataNodeInfo) (dn : DataNodeInfo)
    → DistinctNames dns
    → has_datanode dn.dn_name dns ≡ false
    → DistinctNames (dns ++ (dn ∷ []))
unfolding has_datanode
snoc-DistinctNames [] dn h e = (refl, tt)
snoc-DistinctNames (d ∷ dns) dn (hd, h) e = (
  ground (
    arith,
    has_datanode-snoc d.dn_name dns dn,
    str_eq_iff d.dn_name dn.dn_name,
    str_eq_iff dn.dn_name d.dn_name,
  ),
  snoc-DistinctNames dns dn h (ground arith),
)
