-- ===== src/Ndfs/DfsClient/Files/Placed.antt =====
-- A file that the loop of `WriteFile` of src/ndfs/dfs_client.h is writing, on a cluster, and what the
-- confirmation of a block does to it.
use mini_hadoop.Common.{
  append-nil, inr, inl, Option-cases, Bool-cases, ℕ, suc, ◌≡◌, refl, sym, ap, subst, ◌∙◌, true,
  List, [], ◌∷◌, ◌++◌, map, some, All, if◌then◌else◌,
}
use mini_hadoop.Common.Int.{ℤ, pos, eqb_ℤ, eqb_ℤ_iff}
use mini_hadoop.Common.Text.{str_eq, Bytes}
use mini_hadoop.Common.Assoc.{lookup, lookup-insert}
use mini_hadoop.Ndfs.FsNamesystem.{
  FsNamesystem, Block, DataNodeInfo, choose_targets, default_replication, datanodes_of,
  set_datanodes,
}
use mini_hadoop.Ndfs.FsNamesystem.DataNodes.{has_datanode, block_received}
use mini_hadoop.Ndfs.FsNamesystem.Files.{HasBlocks}
use mini_hadoop.Ndfs.NameNode.Server.{Served, Draws}
use mini_hadoop.Ipc.Socket.Stream.{Delivers}
use mini_hadoop.Ndfs.BlockStorage.{BlockStorage}
use mini_hadoop.Ndfs.DfsClient.Files.World.{segment, World, address, address_eq}
use mini_hadoop.Ndfs.DfsClient.Files.Replies.{served}

abbrev pub ids : List (ℤ × Bytes) → List ℤ
ids = map (λ p. p.0)

pub datanodes_of-set_datanodes :
    (i j : ℤ) (dns : List DataNodeInfo) (s : FsNamesystem)
    → datanodes_of j (set_datanodes i dns s) ≡ (if eqb_ℤ i j then dns else datanodes_of j s)
datanodes_of-set_datanodes i j dns s =
    rw (lookup-insert eqb_ℤ eqb_ℤ_iff i j dns s.block_to_datanodes)
      (elim (Bool-cases (eqb_ℤ i j)) [ inl e ↦ rw e refl | inr e ↦ rw e refl ])

-- A DataNode that is listed already changes nothing in the list.
pub block_received-listed :
    (name : Bytes) (b : Block) (s : FsNamesystem)
    → has_datanode name (datanodes_of b.block_id s) ≡ true
    → block_received name b s ≡ set_datanodes b.block_id (datanodes_of b.block_id s) s
unfolding block_received
block_received-listed name b s h = elim (Option-cases (lookup str_eq name s.datanodes)) [
  | inl e ↦ rw (block_received, e) refl
  | inr (info, e) ↦ rw (block_received, e, h) refl
]

pub ids_snoc :
    (pairs : List (ℤ × Bytes)) (id : ℤ) (chunk : Bytes)
    → ids (pairs ++ ((id, chunk) ∷ [])) ≡ ids pairs ++ (id ∷ [])
ids_snoc [] id chunk = refl
ids_snoc (p ∷ pairs) id chunk = ap (λ (l : List ℤ). p.0 ∷ l) (ids_snoc pairs id chunk)

pub segment-Delivers : (bs : Bytes) → Delivers (segment bs) bs
segment-Delivers [] = (refl, tt)
segment-Delivers (b ∷ bs) = (append-nil (b ∷ bs), ((λ e. cc), tt))

module _ (draws : Draws) (path : Bytes) (t : DataNodeInfo) (dns : List DataNodeInfo) where
  -- After `r` requests the path leads to a file of blocks that all have the targets, and the first
  -- target has the bytes of each.
  pub record Written (w : World) (pairs : List (ℤ × Bytes)) (r : ℕ) : Type 0 where
    pub server : Served
    pub up : w.name_node ≡ some server
    pub counted : server.requests ≡ r
    pub blocks : HasBlocks server.namesystem path (ids pairs)
    pub chosen : choose_targets default_replication server.namesystem ≡ t ∷ dns
    pub placed : All (λ i. datanodes_of i server.namesystem ≡ t ∷ dns) (ids pairs)
    pub storage : BlockStorage
    pub reached : lookup address_eq (address t) w.nodes ≡ some storage
    pub held : All (λ p. lookup eqb_ℤ p.0 storage ≡ some p.1) pairs

  pub placed-set_datanodes :
      (i : ℤ) (s : FsNamesystem) (js : List ℤ)
      → All (λ j. datanodes_of j s ≡ t ∷ dns) js
      → All (λ j. datanodes_of j (set_datanodes i (t ∷ dns) s) ≡ t ∷ dns) js
  placed-set_datanodes i s [] h = tt
  placed-set_datanodes i s (j ∷ js) (hj, h) = (
    rw (datanodes_of-set_datanodes i j (t ∷ dns) s, hj)
        (elim (Bool-cases (eqb_ℤ i j)) [ inl e ↦ rw e refl | inr e ↦ rw e refl ]),
    placed-set_datanodes i s js h,
  )

  pub placed_last :
      (s : FsNamesystem) (pairs : List (ℤ × Bytes)) (i : ℤ) (chunk : Bytes)
      → All (λ j. datanodes_of j s ≡ t ∷ dns) (ids (pairs ++ ((i, chunk) ∷ [])))
      → datanodes_of i s ≡ t ∷ dns
  placed_last s [] i chunk (h, _) = h
  placed_last s (p ∷ pairs) i chunk (_, h) = placed_last s pairs i chunk h

  -- A confirmation by one of the targets leaves the file as it was.
  pub confirmed-Written :
      (w : World) (pairs : List (ℤ × Bytes)) (r : ℕ) (block : Block) (n : ℕ) (dn : DataNodeInfo)
      → (h : Written w pairs r) → datanodes_of block.block_id h.server.namesystem ≡ t ∷ dns
      → has_datanode dn.dn_name (t ∷ dns) ≡ true
      → Written
          (record w {
            name_node = some (
                served h.server (
                  block_received dn.dn_name
                    (record block { num_bytes = pos n })
                    h.server.namesystem));
          })
          pairs
          (suc r)
  unfolding choose_targets
  confirmed-Written w pairs r block n dn h here listed =
      let fs = h.server.namesystem in
      let b : Block = record block { num_bytes = pos n } in
      let e : block_received dn.dn_name b fs ≡ set_datanodes block.block_id (t ∷ dns) fs =
        block_received-listed dn.dn_name b fs (rw here listed)
        ∙ ap (λ (l : List DataNodeInfo). set_datanodes block.block_id l fs) here in
      subst
        (λ (x : FsNamesystem).
          Written (record w { name_node = some (served h.server x) }) pairs (suc r))
        (sym e)
        (record {
          server = served h.server (set_datanodes block.block_id (t ∷ dns) fs);
          up = refl;
          counted = ap suc h.counted;
          blocks = h.blocks;
          chosen = h.chosen;
          placed = placed-set_datanodes block.block_id fs (ids pairs) h.placed;
          storage = h.storage;
          reached = h.reached;
          held = h.held;
        })
