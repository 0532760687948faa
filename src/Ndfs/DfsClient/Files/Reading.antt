-- ===== src/Ndfs/DfsClient/Files/Reading.antt =====
-- `ReadFile` of src/ndfs/dfs_client.h on a cluster, and `WriteFile` followed by `ReadFile`.
use mini_hadoop.Common.{
  ℕ, suc, ◌+◌, ◌*◌, ◌^◌, ◌≤◌, ◌<◌, ◌≡◌, sym, ap, ap₂, subst, ◌∙◌, Bool, true, false, not, ◌&&◌,
  List, [], ◌∷◌, map, length, some, arith, ok,
}
use mini_hadoop.Common.Int.{ℤ, pos, wrap32, wrap32_of_lt, IsInt32, to_u32}
use mini_hadoop.Common.Text.{Bytes}
use mini_hadoop.Common.Assoc.{lookup}
use mini_hadoop.Status.{Status}
use mini_hadoop.Io.Buffer.{be32, reset, read_int, advance}
use mini_hadoop.Io.Buffer.Cursor.{At, At-reset, advance-At}
use mini_hadoop.Io.Buffer.RoundTrip.{size-Reads}
use mini_hadoop.Io.Buffer.Fields.{Field, fields_bytes, write_fields, write_fields-append, int}
use mini_hadoop.Ndfs.FsNamesystem.{
  Block, generate, DataNodeInfo, choose_targets, default_replication, in_safe_mode,
}
use mini_hadoop.Ndfs.FsNamesystem.Client.{started_tree, exists, get_blocks}
use mini_hadoop.Ndfs.FsNamesystem.Files.{get_blocks-HasBlocks}
use mini_hadoop.Io.Buffer.Fields.{string}
use mini_hadoop.Ndfs.NameNode.{located_fields}
use mini_hadoop.Ndfs.NameNode.Server.{Served, Draws}
use mini_hadoop.Ndfs.BlockStorage.{BlockStorage}
use mini_hadoop.Ndfs.DfsClient.Files.{Cluster, Run, write_file, read_blocks, read_file}
use mini_hadoop.Ndfs.DfsClient.Files.World.{World, world, address, address_eq}
use mini_hadoop.Ndfs.DfsClient.Files.Replies.{served, call_get_blocks}
use mini_hadoop.Ndfs.DfsClient.Files.Placed.{Written, ids}
use mini_hadoop.Ndfs.DfsClient.Files.Conditions.{IsDistinct, IsFitCluster, Drawn, contents}
use mini_hadoop.Ndfs.DfsClient.Files.Writing.{write_file-Written}
use mini_hadoop.Ndfs.DfsClient.Files.Located.{
  length-ids, length-located, chunks_short, Drawn-IsInt64, allocations, located_fields-allocations,
  allocations-IsFit, allocations_short,
}
use mini_hadoop.Ndfs.DfsClient.Files.Fetching.{read_blocks-contents}

module _ (path : Bytes) (t : DataNodeInfo) (dns : List DataNodeInfo)
    (fit : IsFitCluster path t dns) where
  module _ (draws : Draws) (block_path : ℤ → Bytes) (burst : ℕ) (to_string : ℤ → Bytes) where
    abbrev cluster : Cluster World
    cluster = world draws block_path burst

    read_file-Written :
        (w : World) (pairs : List (ℤ × Bytes)) (r n : ℕ) (before : Bytes)
        → Written draws path t dns w pairs r
        → IsDistinct draws n
        → Drawn draws (ids pairs) n
        → length pairs < 2 ^ 30
        → length (contents pairs) ≤ burst
        → length (contents pairs) ≤ 2 ^ 30
        → 8 ≤ burst
        → (read_file cluster to_string path before w).0 ≡ ok (Status.ok, contents pairs)
    unfolding read_file
    read_file-Written w pairs r n before h hd hi few hb hl h8 =
        let fs = h.server.namesystem in
        let is = ids pairs in
        let count : length (map (λ (id : ℤ). generate id (pos 0)) is) ≡ length pairs =
          length-located pairs in
        let reply : List Field =
          int (wrap32 (pos (length pairs))) ∷ allocations path t dns fit is in
        let reply_to : List Block × List (List DataNodeInfo) → (Status × Bytes) × World = λ l. (
          (Status.ok, write_fields [] (int (wrap32 (pos (length l.0))) ∷ located_fields l.0 l.1)),
          record w { name_node = some (served h.server fs) },
        ) in
        let answer : reply_to (get_blocks path fs) ≡ (
          (Status.ok, write_fields [] reply),
          record w { name_node = some (served h.server fs) },
        ) =
          ap reply_to (get_blocks-HasBlocks fs path is h.blocks)
          ∙ ap₂
              (λ (k : ℕ) (l : List Field). (
                (Status.ok, write_fields [] (int (wrap32 (pos k)) ∷ l)),
                record w { name_node = some (served h.server fs) },
              ))
              count (located_fields-allocations path t dns fit fs is h.placed) in
        let answered : cluster.call 2 (write_fields [] (string path ∷ [])) w ≡ (
          (Status.ok, write_fields [] reply),
          record w { name_node = some (served h.server fs) },
        ) =
          call_get_blocks draws w h.server h.up path fit.short ∙ answer in
        let fits = Drawn-IsInt64 draws n is hd hi in
        let whole : write_fields [] reply ≡ fields_bytes reply = write_fields-append [] reply (
          subst IsInt32 (sym (wrap32_of_lt (length pairs) (omega (arith, few))))
              (omega (arith, few)),
          allocations-IsFit path t dns fit is fits,
        ) in
        let at : At (reset (fields_bytes reply)) (fields_bytes reply) =
          At-reset (fields_bytes reply)
            (omega (arith, few, allocations_short path t dns fit is, length-ids pairs)) in
        let parsed =
          (size-Reads (length pairs) (omega (arith, few))).run (reset (fields_bytes reply))
            (fields_bytes (allocations path t dns fit is)) at in
        let counted : read_int (reset (write_fields [] reply))
            ≡ ok (pos (length pairs), advance 4 (reset (fields_bytes reply))) =
          ap (λ (bs : Bytes). read_int (reset bs)) whole ∙ parsed in
        let next =
          advance-At (reset (fields_bytes reply)) (be32 (to_u32 (wrap32 (pos (length pairs)))))
            (fields_bytes (allocations path t dns fit is)) at in
        rw (read_file, answered, counted)
          (ap
              (λ (r : (Status × Bytes) × World).
                (read_blocks cluster to_string (length pairs)
                  (advance 4 (reset (fields_bytes reply))) [] r.1).0)
              answered
            ∙ read_blocks-contents path t dns fit draws block_path burst to_string pairs
                (advance 4 (reset (fields_bytes reply))) []
                (record w { name_node = some (served h.server fs) }) h.storage next fits
                (chunks_short pairs burst hb) (chunks_short pairs (2 ^ 30) hl) h8 h.reached h.held)

    -- `WriteFile` of at least one byte and less than 1 GiB returns OK, and `ReadFile` of the path after
    -- it returns OK and the same bytes, if: the NameNode is out of safe mode, the path is free or
    -- `overwrite` is set, and `CreateFile` can make the file; the targets that it chooses are
    -- `t ∷ dns`, and `t` can be reached; the block size is not 0; no block id is drawn twice; and the
    -- values and messages are within their limits.
    pub read_file-write_file :
        (block_size : ℕ) (overwrite : Bool) (b : ℕ) (bs before : Bytes) (w : World) (s : Served)
        (storage : BlockStorage) (n : ℕ)
        → w.name_node ≡ some s
        → in_safe_mode s.namesystem ≡ false
        → (exists s.namesystem.tree path && not overwrite) ≡ false
        → (started_tree path overwrite s.namesystem.tree).1 ≡ true
        → choose_targets default_replication s.namesystem ≡ t ∷ dns
        → lookup address_eq (address t) w.nodes ≡ some storage
        → IsDistinct draws n
        → s.requests + length (b ∷ bs) * suc (length (t ∷ dns)) ≤ n
        → 0 < block_size
        → length (b ∷ bs) < 2 ^ 30
        → length (b ∷ bs) ≤ burst
        → 8 ≤ burst
        → ((write_file cluster block_size path (b ∷ bs) overwrite w).0 ≡ Run.returned Status.ok)
          × ((read_file cluster to_string path before
                (write_file cluster block_size path (b ∷ bs) overwrite w).1).0
              ≡ ok (Status.ok, b ∷ bs))
    read_file-write_file block_size overwrite b bs before w s storage n up out free made chosen
          reached hd hn hb hl hburst h8 =
        let (w', pairs, r, e, h, c, hi, few) =
          write_file-Written draws path t dns fit block_path burst block_size overwrite b bs w s
            storage n up out free made chosen reached hd hn hb (omega (arith, hl)) in
        let size : length (contents pairs) ≡ length (b ∷ bs) = ap length c in
        let read =
          read_file-Written w' pairs r n before h hd hi (omega (arith, few, hl))
            (omega (arith, size, hburst)) (omega (arith, size, hl)) h8 in
        (
          ap (λ (x : Run × World). x.0) e,
          ap (λ (x : Run × World). (read_file cluster to_string path before x.1).0) e
              ∙ read
              ∙ ap (λ (x : Bytes). ok (Status.ok, x)) c,
        )
