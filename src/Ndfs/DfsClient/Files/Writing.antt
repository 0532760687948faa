-- ===== src/Ndfs/DfsClient/Files/Writing.antt =====
-- `WriteFile` of src/ndfs/dfs_client.h on a cluster: the file that its loop leaves.
use mini_hadoop.Common.{
  ℕ, zero, suc, ◌+◌, ◌-◌, ◌*◌, ◌^◌, ◌≤◌, ◌<◌, ◌≡◌, refl, sym, ap, ◌∙◌, Bool, true, false, not, ◌&&◌,
  List, [], ◌∷◌, ◌++◌, append-nil, append_assoc, length, length-append, length-drop, take, drop,
  take-append-drop, some, arith,
}
use mini_hadoop.Common.Int.{ℤ}
use mini_hadoop.Common.Text.{Bytes}
use mini_hadoop.Common.Assoc.{lookup}
use mini_hadoop.Status.{Status}
use mini_hadoop.Io.Buffer.Fields.{write_fields}
use mini_hadoop.Ndfs.FsNamesystem.{
  FsNamesystem, DataNodeInfo, choose_targets, default_replication, in_safe_mode,
}
use mini_hadoop.Ndfs.FsNamesystem.Client.{Allocation, started_tree, exists}
use mini_hadoop.Ndfs.FsNamesystem.Files.{start_file-allocate, started_file, started_file-HasBlocks}
use mini_hadoop.Ndfs.NameNode.{allocation_fields}
use mini_hadoop.Ndfs.NameNode.Server.{Served, Draws}
use mini_hadoop.Ndfs.BlockStorage.{BlockStorage}
use mini_hadoop.Ndfs.DfsClient.Files.{Cluster, Run, write_loop, write_file}
use mini_hadoop.Ndfs.DfsClient.Files.World.{World, world, address, address_eq}
use mini_hadoop.Ndfs.DfsClient.Files.Replies.{served, call_start_file}
use mini_hadoop.Ndfs.DfsClient.Files.Placed.{Written, ids}
use mini_hadoop.Ndfs.DfsClient.Files.Conditions.{
  IsDistinct, IsFitCluster, Drawn, Drawn-weaken, Drawn-later, contents, contents_snoc, suc-mul,
}
use mini_hadoop.Ndfs.DfsClient.Files.Allocating.{write_round, add_block_answered}

module _ (draws : Draws) (path : Bytes) (t : DataNodeInfo) (dns : List DataNodeInfo)
    (fit : IsFitCluster path t dns) (block_path : ℤ → Bytes) (burst : ℕ) where
  module _ (block_size : ℕ) (overwrite : Bool) where
    abbrev cluster : Cluster World
    cluster = world draws block_path burst

    -- The loop with enough fuel writes all bytes that are left. Each round takes a request for the
    -- allocation and one for each target.
    loop-Written :
        (fuel : ℕ) (bytes : Bytes) (w : World) (pairs : List (ℤ × Bytes)) (r n : ℕ)
        → Written draws path t dns w pairs r
        → IsDistinct draws n
        → Drawn draws (ids pairs) r
        → r + fuel * suc (length (t ∷ dns)) ≤ n
        → 0 < block_size
        → length bytes ≤ fuel
        → length bytes < 2 ^ 63
        → (w' : World) × (pairs' : List (ℤ × Bytes)) × (r' : ℕ) × (write_loop cluster block_size
              fuel path overwrite false bytes w
            ≡ (Run.returned Status.ok, w'))
          × Written draws path t dns w' pairs' r'
          × (contents pairs' ≡ contents pairs ++ bytes)
          × Drawn draws (ids pairs') n
          × (length pairs' ≤ length pairs + fuel)
    unfolding write_loop
    loop-Written zero [] w pairs r n h hd hi hn hb hf hl = (
      w,
      pairs,
      r,
      refl,
      h,
      sym (append-nil (contents pairs)),
      Drawn-weaken draws r n (ids pairs) (omega (arith, hn)) hi,
      omega arith,
    )
    loop-Written (suc fuel) [] w pairs r n h hd hi hn hb hf hl = (
      w,
      pairs,
      r,
      refl,
      h,
      sym (append-nil (contents pairs)),
      Drawn-weaken draws r n (ids pairs) (omega (arith, hn)) hi,
      omega arith,
    )
    loop-Written zero (b ∷ bs) w pairs r n h hd hi hn hb hf hl = absurd (omega (arith, hf))
    loop-Written (suc fuel) (b ∷ bs) w pairs r n h hd hi hn hb hf hl =
        let split : suc fuel * suc (length (t ∷ dns))
            ≡ suc (length (t ∷ dns)) + fuel * suc (length (t ∷ dns)) =
          suc-mul fuel (suc (length (t ∷ dns))) in
        let shrunk : length (drop block_size (b ∷ bs)) ≡ length (b ∷ bs) - block_size =
          length-drop block_size (b ∷ bs) in
        let less : r < n = omega (arith, split, hn) in
        let (w1, step, h1) =
          write_round draws path t dns fit block_path burst block_size overwrite false fuel b bs w w
            pairs r n h hd less hi hl
            (add_block_answered draws path t dns fit block_path burst block_size overwrite w pairs r
              h) in
        let chunk = take block_size (b ∷ bs) in
        let later = Drawn-later draws r (length (t ∷ dns) + suc r) pairs chunk (omega arith) hi in
        let room : (length (t ∷ dns) + suc r) + fuel * suc (length (t ∷ dns)) ≤ n =
          omega (arith, split, hn) in
        let (w', pairs', r', e, h', c, hi', few) =
          loop-Written fuel (drop block_size (b ∷ bs)) w1 (pairs ++ (((draws r).0, chunk) ∷ []))
            (length (t ∷ dns) + suc r) n h1 hd later room hb (omega (arith, shrunk, hb, hf))
            (omega (arith, shrunk, hl)) in
        (
          w',
          pairs',
          r',
          step ∙ e,
          h',
          c
              ∙ ap (λ (x : Bytes). x ++ drop block_size (b ∷ bs))
                  (contents_snoc pairs (draws r).0 chunk)
              ∙ append_assoc (contents pairs) chunk (drop block_size (b ∷ bs))
              ∙ ap (λ (x : Bytes). contents pairs ++ x) (take-append-drop block_size (b ∷ bs)),
          hi',
          omega (arith, few, length-append pairs (((draws r).0, chunk) ∷ [])),
        )

    -- `WriteFile` of bytes, at least one, to a path at which `StartFile` makes a file.
    pub write_file-Written :
        (b : ℕ) (bs : Bytes) (w : World) (s : Served) (storage : BlockStorage) (n : ℕ)
        → w.name_node ≡ some s
        → in_safe_mode s.namesystem ≡ false
        → (exists s.namesystem.tree path && not overwrite) ≡ false
        → (started_tree path overwrite s.namesystem.tree).1 ≡ true
        → choose_targets default_replication s.namesystem ≡ t ∷ dns
        → lookup address_eq (address t) w.nodes ≡ some storage
        → IsDistinct draws n
        → s.requests + length (b ∷ bs) * suc (length (t ∷ dns)) ≤ n
        → 0 < block_size
        → length (b ∷ bs) < 2 ^ 63
        → (w' : World) × (pairs : List (ℤ × Bytes)) × (r : ℕ) × (write_file cluster block_size path
              (b ∷ bs)
              overwrite
              w
            ≡ (Run.returned Status.ok, w'))
          × Written draws path t dns w' pairs r
          × (contents pairs ≡ b ∷ bs)
          × Drawn draws (ids pairs) n
          × (length pairs ≤ length (b ∷ bs))
    unfolding write_file choose_targets
    write_file-Written b bs w s storage n up out free made chosen reached hd hn hb hl =
        let fs = s.namesystem in
        let id = (draws s.requests).0 in
        let s0 : Served = record s { namesystem = started_file fs path overwrite } in
        let w0 : World = record w { name_node = some s0 } in
        let h0 : Written draws path t dns w0 [] s.requests = record {
          server = s0;
          up = refl;
          counted = refl;
          blocks = started_file-HasBlocks fs id path overwrite out free made;
          chosen = chosen;
          placed = tt;
          storage = storage;
          reached = reached;
          held = tt;
        } in
        let same = start_file-allocate fs id path overwrite out free made in
        let asked =
          call_start_file draws w s up path overwrite fit.short
          ∙ ap
              (λ (a : FsNamesystem × Allocation). (
                (Status.ok, write_fields [] (allocation_fields a.1)),
                record w { name_node = some (served s a.0) },
              ))
              same in
        let split = suc-mul (length bs) (suc (length (t ∷ dns))) in
        let less : s.requests < n = omega (arith, split, hn) in
        let (w1, step, h1) =
          write_round draws path t dns fit block_path burst block_size overwrite true (length bs) b
            bs w w0 [] s.requests n h0 hd less tt hl asked in
        let chunk = take block_size (b ∷ bs) in
        let r1 = length (t ∷ dns) + suc s.requests in
        let room : r1 + length bs * suc (length (t ∷ dns)) ≤ n = omega (arith, split, hn) in
        let later = Drawn-later draws s.requests r1 [] chunk (omega arith) tt in
        let shrunk : length (drop block_size (b ∷ bs)) ≡ length (b ∷ bs) - block_size =
          length-drop block_size (b ∷ bs) in
        let (w', pairs, r, e, h', c, hi', few) =
          loop-Written (length bs) (drop block_size (b ∷ bs)) w1 ((id, chunk) ∷ []) r1 n h1 hd later
            room hb (omega (arith, shrunk, hb)) (omega (arith, shrunk, hl)) in
        (
          w',
          pairs,
          r,
          step ∙ e,
          h',
          c
              ∙ append_assoc chunk [] (drop block_size (b ∷ bs))
              ∙ take-append-drop block_size (b ∷ bs),
          hi',
          omega (arith, few),
        )
