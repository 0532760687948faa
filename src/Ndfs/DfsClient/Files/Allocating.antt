-- ===== src/Ndfs/DfsClient/Files/Allocating.antt =====
-- One round of the loop of `WriteFile` of src/ndfs/dfs_client.h on a cluster, behind its call that
-- allocates a block.
use mini_hadoop.Common.{
  ℕ, suc, ◌+◌, ◌^◌, ◌≤◌, ◌<◌, ◌≡◌, refl, sym, ap, subst, ◌∙◌, Bool, false, List, [], ◌∷◌, ◌++◌,
  append_assoc, length, take, drop, some, arith, All, ok, if◌then◌else◌,
}
use mini_hadoop.Common.Int.{ℤ, pos, IsInt64}
use mini_hadoop.Common.Text.{Bytes}
use mini_hadoop.Status.{Status}
use mini_hadoop.Io.Buffer.{InputBuffer, reset}
use mini_hadoop.Io.Buffer.Fields.{fields_bytes, write_fields, write_fields-append, read_message}
use mini_hadoop.Ipc.Rpc.{max_message}
use mini_hadoop.Ndfs.FsNamesystem.{
  FsNamesystem, generate, DataNodeInfo, choose_targets, default_replication,
}
use mini_hadoop.Ndfs.FsNamesystem.Client.{Allocation}
use mini_hadoop.Ndfs.FsNamesystem.Files.{Fresh, add_block-allocate}
use mini_hadoop.Ndfs.NameNode.{allocation_fields}
use mini_hadoop.Ndfs.NameNode.Server.{Draws}
use mini_hadoop.Ndfs.DfsClient.{read_allocation, start_file_request, add_block_request}
use mini_hadoop.Ndfs.DfsClient.Protocol.{
  IsFitAllocation, read_allocation-Reads, allocation_fields-IsFit,
}
use mini_hadoop.Ndfs.DfsClient.Files.{Cluster, send_chunk, confirm, write_loop}
use mini_hadoop.Ndfs.DfsClient.Files.World.{World, world}
use mini_hadoop.Ndfs.DfsClient.Files.Replies.{served, call_add_block}
use mini_hadoop.Ndfs.DfsClient.Files.Rounds.{IsListed, allocated_world, round-Written}
use mini_hadoop.Ndfs.DfsClient.Files.Placed.{Written, ids}
use mini_hadoop.Ndfs.DfsClient.Files.Conditions.{
  IsDistinct, IsFitCluster, Drawn, Drawn-Fresh, length-take_le, has_datanode-append,
}

module _ (draws : Draws) (path : Bytes) (t : DataNodeInfo) (dns : List DataNodeInfo)
    (fit : IsFitCluster path t dns) (block_path : ℤ → Bytes) (burst : ℕ) where
  targets-IsListed :
      (front back : List DataNodeInfo)
      → front ++ back ≡ t ∷ dns
      → All (λ dn. length dn.dn_name + 64 ≤ max_message) back
      → All (IsListed draws path t dns block_path burst) back
  targets-IsListed front [] e h = tt
  targets-IsListed front (dn ∷ back) e (short, h) = (
    (rw (← e) (has_datanode-append front dn back), short),
    targets-IsListed (front ++ (dn ∷ [])) back (append_assoc front (dn ∷ []) back ∙ e) h,
  )

  -- The client reads the allocation.
  read_allocation_reply :
      (id : ℤ)
      → IsInt64 id
      → (end : InputBuffer) × (read_allocation
            (reset (write_fields [] (allocation_fields (generate id (pos 0), t ∷ dns))))
          ≡ ok ((generate id (pos 0), t ∷ dns), end))
  read_allocation_reply id hid =
      let a : Allocation = (generate id (pos 0), t ∷ dns) in
      let hfit : IsFitAllocation a = ((hid, omega arith, omega arith), fit.nodes, fit.few) in
      let whole = write_fields-append [] (allocation_fields a) (allocation_fields-IsFit a hfit) in
      let limit : length (fields_bytes (allocation_fields a)) < 2 ^ 63 = omega (arith, fit.small) in
      (
        _,
        read_message read_allocation a (allocation_fields a) (allocation_fields-IsFit a hfit)
            (subst (λ (bs : Bytes). length bs < 2 ^ 63) (sym whole) limit)
            (read_allocation-Reads a hfit),
      )

  module _ (block_size : ℕ) (overwrite : Bool) where
    abbrev cluster : Cluster World
    cluster = world draws block_path burst

    -- One round of the loop, from the reply to its call on.
    write_step :
        (first : Bool) (fuel b : ℕ) (bs : Bytes) (w w1 : World) (id : ℤ)
        → IsInt64 id
        → cluster.call
            (if first then 0 else 1)
            (write_fields []
              (if first then start_file_request path overwrite else add_block_request path))
            w
          ≡ ((Status.ok, write_fields [] (allocation_fields (generate id (pos 0), t ∷ dns))), w1)
        → write_loop cluster block_size (suc fuel) path overwrite first (b ∷ bs) w
          ≡ write_loop cluster block_size fuel path overwrite false (drop block_size (b ∷ bs)) (
              confirm cluster
                (generate id (pos 0))
                (length (take block_size (b ∷ bs)))
                (t ∷ dns)
                (send_chunk cluster (generate id (pos 0), t ∷ dns) (take block_size (b ∷ bs)) w1))
    unfolding write_loop
    write_step first fuel b bs w w1 id hid e =
        let (end, er) = read_allocation_reply id hid in
        rw (write_loop, e, er)
          (ap
            (λ (x : World).
              write_loop cluster block_size fuel path overwrite false (drop block_size (b ∷ bs)) (
                confirm cluster (generate id (pos 0)) (length (take block_size (b ∷ bs))) (t ∷ dns)
                  (send_chunk cluster (generate id (pos 0), t ∷ dns) (take block_size (b ∷ bs)) x)))
            (ap (λ (r : (Status × Bytes) × World). r.1) e))

    -- A call that allocates on the state `s` of the NameNode, from which the round goes on.
    pub write_round :
        (first : Bool) (fuel b : ℕ) (bs : Bytes) (w w0 : World) (pairs : List (ℤ × Bytes)) (r n : ℕ)
        (h : Written draws path t dns w0 pairs r)
        → IsDistinct draws n
        → r < n
        → Drawn draws (ids pairs) r
        → length (b ∷ bs) < 2 ^ 63
        → cluster.call
            (if first then 0 else 1)
            (write_fields []
              (if first then start_file_request path overwrite else add_block_request path))
            w
          ≡ (
            (
              Status.ok,
              write_fields [] (
                  allocation_fields (
                    generate (draws h.server.requests).0 (pos 0),
                    choose_targets default_replication h.server.namesystem,
                  )),
            ),
            allocated_world draws path t dns block_path burst w0 h.server,
          )
        → (w' : World) × (write_loop cluster block_size (suc fuel) path overwrite first (b ∷ bs) w
            ≡ write_loop cluster block_size fuel path overwrite false (drop block_size (b ∷ bs)) w')
          × Written draws path t dns w'
              (pairs ++ (((draws r).0, take block_size (b ∷ bs)) ∷ []))
              (length (t ∷ dns) + suc r)
    write_round first fuel b bs w w0 pairs r n h hd hr hi hlen e =
        let counted : h.server.requests ≡ r = h.counted in
        let hid : IsInt64 (draws h.server.requests).0 = rw counted (hd.fits r hr) in
        let fresh : Fresh (draws h.server.requests).0 (ids pairs) =
          rw counted (Drawn-Fresh draws n r (ids pairs) hd hr hi) in
        let short : length (take block_size (b ∷ bs)) < 2 ^ 63 =
          length-take_le block_size (b ∷ bs) (2 ^ 63) hlen in
        let step =
          write_step first fuel b bs w
            (allocated_world draws path t dns block_path burst w0 h.server)
            (draws h.server.requests).0 hid
            (subst
              (λ (l : List DataNodeInfo).
                cluster.call (if first then 0 else 1)
                  (write_fields []
                    (if first then start_file_request path overwrite else add_block_request path))
                  w
                ≡ (
                  (
                    Status.ok,
                    write_fields []
                        (allocation_fields (generate (draws h.server.requests).0 (pos 0), l)),
                  ),
                  allocated_world draws path t dns block_path burst w0 h.server,
                ))
              h.chosen e) in
        let next =
          round-Written draws path t dns block_path burst w0 pairs r (take block_size (b ∷ bs)) h
            hid fresh short (targets-IsListed [] (t ∷ dns) refl fit.names) in
        let left : World =
          confirm cluster (generate (draws h.server.requests).0 (pos 0))
            (length (take block_size (b ∷ bs))) (t ∷ dns)
            (send_chunk cluster (generate (draws h.server.requests).0 (pos 0), t ∷ dns)
              (take block_size (b ∷ bs))
              (allocated_world draws path t dns block_path burst w0 h.server)) in
        (
          left,
          step,
          subst
              (λ (k : ℕ).
                Written draws path t dns left
                  (pairs ++ (((draws k).0, take block_size (b ∷ bs)) ∷ []))
                  (length (t ∷ dns) + suc r))
              counted next,
        )

    -- The call of a later round.
    pub add_block_answered :
        (w : World) (pairs : List (ℤ × Bytes)) (r : ℕ) (h : Written draws path t dns w pairs r)
        → cluster.call 1 (write_fields [] (add_block_request path)) w ≡ (
          (
            Status.ok,
            write_fields [] (
                allocation_fields (
                  generate (draws h.server.requests).0 (pos 0),
                  choose_targets default_replication h.server.namesystem,
                )),
          ),
          allocated_world draws path t dns block_path burst w h.server,
        )
    add_block_answered w pairs r h =
        let same =
          add_block-allocate h.server.namesystem (draws h.server.requests).0 path (ids pairs)
            h.blocks in
        call_add_block draws w h.server h.up path fit.short
        ∙ ap
            (λ (a : FsNamesystem × Allocation). (
              (Status.ok, write_fields [] (allocation_fields a.1)),
              record w { name_node = some (served h.server a.0) },
            ))
            same
