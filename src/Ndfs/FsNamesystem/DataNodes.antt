-- ===== src/Ndfs/FsNamesystem/DataNodes.antt =====
-- The DataNode operations of `FsNamesystem`.
use mini_hadoop.Common.{
  ℕ, ◌-◌, Bool, false, not, ◌&&◌, ◌||◌, List, [], ◌∷◌, ◌++◌, map, none, some, ltb, if◌then◌else◌,
  length,
}
use mini_hadoop.Common.Int.{ℤ, pos, ◌+ℤ◌, wrap64}
use mini_hadoop.Common.Text.{Bytes, str_eq}
use mini_hadoop.Common.Assoc.{Map, lookup, insert}
use mini_hadoop.Ndfs.FsNamesystem.{
  FsNamesystem, Block, generate, DataNodeInfo, choose_targets, default_replication, set_datanodes,
  datanodes_of,
}

unfoldable pub register_datanode : ℤ → DataNodeInfo → FsNamesystem → FsNamesystem
register_datanode now info s = record s {
  datanodes = insert str_eq info.dn_name (record info { last_update = now }) s.datanodes;
}

-- A known node keeps its name; an unknown one is registered.
unfoldable pub heartbeat : ℤ → Bytes → Bytes → ℤ → ℤ → ℤ → FsNamesystem → FsNamesystem
heartbeat now n host port capacity remaining s =
    let kept : Bytes = elim (lookup str_eq n s.datanodes) [ none ↦ n | some info ↦ info.dn_name ] in
    let info : DataNodeInfo = record {
      dn_name = kept;
      host = host;
      port = port;
      capacity = capacity;
      remaining = remaining;
      last_update = now;
    } in
    record s { datanodes = insert str_eq n info s.datanodes }

-- The `found` loop.
unfoldable pub has_datanode : Bytes → List DataNodeInfo → Bool
has_datanode n [] = false
has_datanode n (dn ∷ dns) = str_eq dn.dn_name n || has_datanode n dns

abbrev pub report_block : Bytes → DataNodeInfo → ℤ → FsNamesystem → FsNamesystem
report_block n info id s =
    let dns = datanodes_of id s in
    let dns' =
      if not (has_datanode n dns) && ltb (length dns) default_replication
      then dns ++ (info ∷ [])
      else dns in
    set_datanodes id dns' s

abbrev pub report_blocks : Bytes → DataNodeInfo → List Block → FsNamesystem → FsNamesystem
report_blocks n info [] s = s
report_blocks n info (b ∷ bs) s = report_blocks n info bs (report_block n info b.block_id s)

unfoldable pub block_report : Bytes → List Block → FsNamesystem → FsNamesystem
unfolding has_datanode
block_report n bs s = elim (lookup str_eq n s.datanodes) [
  | none ↦ s
  | some info ↦
      report_blocks n info bs (record s { dn_to_blocks = insert str_eq n bs s.dn_to_blocks })
]

-- `block_to_datanodes_[id]` makes an entry before the DataNode is looked up. The last argument of
-- the method, `del_hint`, is not used.
unfoldable pub block_received : Bytes → Block → FsNamesystem → FsNamesystem
unfolding has_datanode
block_received n b s =
    let dns = datanodes_of b.block_id s in
    elim (lookup str_eq n s.datanodes) [
      | none ↦ set_datanodes b.block_id dns s
      | some info ↦
          set_datanodes b.block_id (if has_datanode n dns then dns else dns ++ (info ∷ [])) s
    ]

abbrev pub sum_of : (DataNodeInfo → ℤ) → Map Bytes DataNodeInfo → ℤ → ℤ
sum_of f [] total = total
sum_of f ((_, info) ∷ m) total = sum_of f m (wrap64 (total +ℤ f info))

unfoldable pub total_capacity : FsNamesystem → ℤ
total_capacity s = sum_of (λ info. info.capacity) s.datanodes (pos 0)

unfoldable pub total_remaining : FsNamesystem → ℤ
total_remaining s = sum_of (λ info. info.remaining) s.datanodes (pos 0)

unfoldable pub alive_datanodes : FsNamesystem → ℕ
alive_datanodes s = length s.datanodes

unfoldable pub get_datanode_report : FsNamesystem → List DataNodeInfo
get_datanode_report s = map (λ (_, info). info) s.datanodes

abbrev pub pair_with : Block → List DataNodeInfo → List (Block × DataNodeInfo)
pair_with b = map (λ dn. (b, dn))

under_replicated : FsNamesystem → Map ℤ (List DataNodeInfo) → List (Block × DataNodeInfo)
under_replicated s [] = []
under_replicated s ((id, []) ∷ m) = under_replicated s m
under_replicated s ((id, dn ∷ dns) ∷ m) =
    let n = length (dn ∷ dns) in
    let rest = under_replicated s m in
    if ltb n default_replication
    then pair_with (generate id (pos 0)) (choose_targets (default_replication - n) s) ++ rest
    else rest

unfoldable pub get_under_replicated_blocks : FsNamesystem → List (Block × DataNodeInfo)
unfolding under_replicated
get_under_replicated_blocks s = under_replicated s s.block_to_datanodes
