-- ===== src/Ndfs/FsNamesystem/Invariant/DataNodes.antt =====
-- The DataNode operations of src/ndfs/fs_namesystem.h and the invariant.
use mini_hadoop.Common.{
  ◌≡◌, refl, subst, Bool, true, false, not, ◌&&◌, List, [], ◌∷◌, ◌++◌, some, if◌then◌else◌, length,
  Bool-cases, Option-cases, inl, inr, ltb,
}
use mini_hadoop.Common.Int.{ℤ}
use mini_hadoop.Common.Text.{Bytes, str_eq, str_eq_iff}
use mini_hadoop.Common.Assoc.{lookup, insert, insert-DistinctKeys, All-insert, All-lookup}
use mini_hadoop.Ndfs.FsNamesystem.{
  FsNamesystem, Block, DataNodeInfo, default_replication, datanodes_of,
}
use mini_hadoop.Ndfs.FsNamesystem.DataNodes.{
  register_datanode, heartbeat, block_report, block_received, report_block, report_blocks,
  has_datanode,
}
use mini_hadoop.Ndfs.FsNamesystem.Targets.{DistinctNames, snoc-DistinctNames}
use mini_hadoop.Ndfs.FsNamesystem.Invariant.{
  IsConsistent, set_datanodes-IsConsistent, datanodes_of-DistinctNames,
}

set_node-IsConsistent :
    (s : FsNamesystem) (n : Bytes) (info : DataNodeInfo)
    → IsConsistent s
    → info.dn_name ≡ n
    → IsConsistent (record s { datanodes = insert str_eq n info s.datanodes })
set_node-IsConsistent s n info c e = record {
  tree_formed = c.tree_formed;
  nodes_distinct = insert-DistinctKeys str_eq str_eq_iff n info s.datanodes c.nodes_distinct;
  nodes_named =
      All-insert str_eq str_eq_iff (λ (k, i). i.dn_name ≡ k) n info s.datanodes c.nodes_named e;
  blocks_distinct = c.blocks_distinct;
  replicas_distinct = c.replicas_distinct;
  reports_distinct = c.reports_distinct;
  leases_distinct = c.leases_distinct;
}

pub register_datanode-IsConsistent :
    (s : FsNamesystem) (now : ℤ) (info : DataNodeInfo)
    → IsConsistent s
    → IsConsistent (register_datanode now info s)
unfolding register_datanode
register_datanode-IsConsistent s now info c =
    set_node-IsConsistent s info.dn_name (record info { last_update = now }) c refl

node_name :
    (s : FsNamesystem) (n : Bytes) (info : DataNodeInfo)
    → IsConsistent s
    → lookup str_eq n s.datanodes ≡ some info
    → info.dn_name ≡ n
node_name s n info c e =
    All-lookup str_eq str_eq_iff (λ (k, i). i.dn_name ≡ k) n s.datanodes info c.nodes_named e

pub heartbeat-IsConsistent :
    (s : FsNamesystem) (now : ℤ) (n host : Bytes) (port capacity remaining : ℤ)
    → IsConsistent s
    → IsConsistent (heartbeat now n host port capacity remaining s)
unfolding heartbeat
heartbeat-IsConsistent s now n host port capacity remaining c =
    set_node-IsConsistent s n _ c (elim (Option-cases (lookup str_eq n s.datanodes)) [
      | inl e ↦ rw e refl
      | inr (info, e) ↦ rw e (node_name s n info c e)
    ])

added-DistinctNames :
    (info : DataNodeInfo) (dns : List DataNodeInfo) (room : Bool)
    → DistinctNames dns
    → DistinctNames
        (if not (has_datanode info.dn_name dns) && room then dns ++ (info ∷ []) else dns)
added-DistinctNames info dns false h = elim (Bool-cases (has_datanode info.dn_name dns)) [
  | inl f ↦ rw f h
  | inr f ↦ rw f h
]
added-DistinctNames info dns true h = elim (Bool-cases (has_datanode info.dn_name dns)) [
  | inl f ↦ rw f h
  | inr f ↦ rw f (snoc-DistinctNames dns info h f)
]

report_block-IsConsistent :
    (s : FsNamesystem) (info : DataNodeInfo) (id : ℤ)
    → IsConsistent s
    → IsConsistent (report_block info.dn_name info id s)
report_block-IsConsistent s info id c = set_datanodes-IsConsistent s id _ c (
    added-DistinctNames info (datanodes_of id s)
      (ltb (length (datanodes_of id s)) default_replication) (datanodes_of-DistinctNames s id c))

report_blocks-IsConsistent :
    (bs : List Block) (s : FsNamesystem) (info : DataNodeInfo)
    → IsConsistent s
    → IsConsistent (report_blocks info.dn_name info bs s)
report_blocks-IsConsistent [] s info c = c
report_blocks-IsConsistent (b ∷ bs) s info c =
    report_blocks-IsConsistent bs (report_block info.dn_name info b.block_id s) info
      (report_block-IsConsistent s info b.block_id c)

pub block_report-IsConsistent :
    (s : FsNamesystem) (n : Bytes) (bs : List Block)
    → IsConsistent s
    → IsConsistent (block_report n bs s)
unfolding block_report
block_report-IsConsistent s n bs c = elim (Option-cases (lookup str_eq n s.datanodes)) [
  | inl e ↦ rw (e, block_report) c
  | inr (info, e) ↦
      let filed : FsNamesystem = record s { dn_to_blocks = insert str_eq n bs s.dn_to_blocks } in
      let filed-c : IsConsistent filed = record {
        tree_formed = c.tree_formed;
        nodes_distinct = c.nodes_distinct;
        nodes_named = c.nodes_named;
        blocks_distinct = c.blocks_distinct;
        replicas_distinct = c.replicas_distinct;
        reports_distinct =
            insert-DistinctKeys str_eq str_eq_iff n bs s.dn_to_blocks c.reports_distinct;
        leases_distinct = c.leases_distinct;
      } in
      rw (e, block_report)
        (subst (λ (k : Bytes). IsConsistent (report_blocks k info bs filed))
          (node_name s n info c e) (report_blocks-IsConsistent bs filed info filed-c))
]

pub block_received-IsConsistent :
    (s : FsNamesystem) (n : Bytes) (b : Block)
    → IsConsistent s
    → IsConsistent (block_received n b s)
unfolding block_received
block_received-IsConsistent s n b c = elim (Option-cases (lookup str_eq n s.datanodes)) [
  | inl e ↦
      rw (e, block_received)
        (set_datanodes-IsConsistent s b.block_id _ c (datanodes_of-DistinctNames s b.block_id c))
  | inr (info, e) ↦
      let dns = datanodes_of b.block_id s in
      let added : DistinctNames (if has_datanode n dns then dns else dns ++ (info ∷ [])) =
        subst
          (λ (k : Bytes). DistinctNames (if has_datanode k dns then dns else dns ++ (info ∷ [])))
          (node_name s n info c e)
          (received-DistinctNames info dns (datanodes_of-DistinctNames s b.block_id c)) in
      rw (e, block_received) (set_datanodes-IsConsistent s b.block_id _ c added)
]
  where
    received-DistinctNames :
        (info : DataNodeInfo) (dns : List DataNodeInfo)
        → DistinctNames dns
        → DistinctNames (if has_datanode info.dn_name dns then dns else dns ++ (info ∷ []))
    received-DistinctNames info dns h = elim (Bool-cases (has_datanode info.dn_name dns)) [
      | inl f ↦ rw f h
      | inr f ↦ rw f (snoc-DistinctNames dns info h f)
    ]
