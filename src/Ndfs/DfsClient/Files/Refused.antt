-- ===== src/Ndfs/DfsClient/Files/Refused.antt =====
-- `WriteFile` of src/ndfs/dfs_client.h when `StartFile` is refused.
use mini_hadoop.Common.{
  Option, ℕ, zero, suc, ◌+◌, ◌-◌, ◌^◌, ◌≤◌, ◌<◌, ◌≡◌, refl, sym, ap, subst, ◌∙◌, Bool, true, false,
  [], ◌∷◌, length, length-drop, drop, some, arith, ok, if◌then◌else◌,
}
use mini_hadoop.Common.Int.{ℤ}
use mini_hadoop.Common.Text.{Bytes}
use mini_hadoop.Status.{Status}
use mini_hadoop.Io.Buffer.{InputBuffer, reset}
use mini_hadoop.Io.Buffer.Fields.{write_fields, write_fields-append, read_message, fields_bytes}
use mini_hadoop.Ipc.Rpc.{max_message}
use mini_hadoop.Ndfs.FsNamesystem.{FsNamesystem, in_safe_mode}
use mini_hadoop.Ndfs.FsNamesystem.Client.{Allocation, no_block, add_block, start_file, is_file}
use mini_hadoop.Ndfs.NameNode.{allocation_fields}
use mini_hadoop.Ndfs.NameNode.Server.{Served, Draws}
use mini_hadoop.Ndfs.DfsClient.{read_allocation, start_file_request, add_block_request}
use mini_hadoop.Ndfs.DfsClient.Protocol.{
  IsFitAllocation, read_allocation-Reads, allocation_fields-IsFit,
}
use mini_hadoop.Ndfs.DfsClient.Files.{Cluster, Run, send_chunk, confirm, write_loop, write_file}
use mini_hadoop.Ndfs.DfsClient.Files.World.{World, world}
use mini_hadoop.Ndfs.DfsClient.Files.Replies.{served, call_start_file, call_add_block}

no_block-IsFit : IsFitAllocation no_block
no_block-IsFit = ((omega arith, omega arith, omega arith), tt, omega arith)

read_no_block :
    (end : InputBuffer) × (read_allocation (reset (write_fields [] (allocation_fields no_block)))
      ≡ ok (no_block, end))
read_no_block =
    let fits = allocation_fields-IsFit no_block no_block-IsFit in
    let small : length (fields_bytes (allocation_fields no_block)) < 2 ^ 63 = omega arith in
    (
      _,
      read_message read_allocation no_block (allocation_fields no_block) fits
          (subst (λ (bs : Bytes). length bs < 2 ^ 63)
            (sym (write_fields-append [] (allocation_fields no_block) fits)) small)
          (read_allocation-Reads no_block no_block-IsFit),
    )

module _ (draws : Draws) (path : Bytes) (short : length path + 16 ≤ max_message)
    (block_path : ℤ → Bytes) (burst block_size : ℕ) (overwrite : Bool) where
  abbrev cluster : Cluster World
  cluster = world draws block_path burst

  -- A round whose call answers with no block goes on with the next chunk.
  skipped :
      (first : Bool) (fuel b : ℕ) (bs : Bytes) (w w1 : World)
      → cluster.call
          (if first then 0 else 1)
          (write_fields []
            (if first then start_file_request path overwrite else add_block_request path))
          w
        ≡ ((Status.ok, write_fields [] (allocation_fields no_block)), w1)
      → write_loop cluster block_size (suc fuel) path overwrite first (b ∷ bs) w
        ≡ write_loop cluster block_size fuel path overwrite false (drop block_size (b ∷ bs)) w1
  unfolding write_loop send_chunk confirm
  skipped first fuel b bs w w1 e =
      let (end, er) = read_no_block in
      rw (write_loop, e, er)
        (ap
          (λ (x : World).
            write_loop cluster block_size fuel path overwrite false (drop block_size (b ∷ bs)) x)
          (ap (λ (r : (Status × Bytes) × World). r.1) e))

  loop_refused :
      (fuel : ℕ) (bytes : Bytes) (w : World) (s : Served)
      → w.name_node ≡ some s
      → is_file s.namesystem.tree path ≡ false
      → 0 < block_size
      → length bytes ≤ fuel
      → (s' : Served) × (write_loop cluster block_size fuel path overwrite false bytes w
          ≡ (Run.returned Status.ok, record w { name_node = some s' }))
        × (s'.namesystem ≡ s.namesystem)
  unfolding write_loop add_block
  loop_refused zero [] w s up nf hb hf = (
    s,
    ap
        (λ (x : Option Served).
          let w' : World = record w { name_node = x } in (Run.returned Status.ok, w'))
        up,
    refl,
  )
  loop_refused (suc fuel) [] w s up nf hb hf = (
    s,
    ap
        (λ (x : Option Served).
          let w' : World = record w { name_node = x } in (Run.returned Status.ok, w'))
        up,
    refl,
  )
  loop_refused zero (b ∷ bs) w s up nf hb hf = absurd (omega (arith, hf))
  loop_refused (suc fuel) (b ∷ bs) w s up nf hb hf =
      let none_added : add_block (draws s.requests).0 path s.namesystem ≡ (s.namesystem, no_block) =
        rw (add_block, nf) refl in
      let answer : FsNamesystem × Allocation → (Status × Bytes) × World = λ a. (
        (Status.ok, write_fields [] (allocation_fields a.1)),
        record w { name_node = some (served s a.0) },
      ) in
      let step =
        skipped false fuel b bs w (record w { name_node = some (served s s.namesystem) })
          (call_add_block draws w s up path short ∙ ap answer none_added) in
      let shrunk : length (drop block_size (b ∷ bs)) ≡ length (b ∷ bs) - block_size =
        length-drop block_size (b ∷ bs) in
      let (s', e, same) =
        loop_refused fuel (drop block_size (b ∷ bs))
          (record w { name_node = some (served s s.namesystem) }) (served s s.namesystem) refl nf hb
          (omega (arith, shrunk, hb, hf)) in
      (s', step ∙ e, same)

  -- In safe mode, `WriteFile` with a block size other than 0, to a path of at most 64 MiB less 16 bytes
  -- at which there is no file, returns OK, but the name space and the block files are as they were:
  -- the data is lost without an error.
  pub write_file_refused :
      (bytes : Bytes) (w : World) (s : Served)
      → w.name_node ≡ some s
      → in_safe_mode s.namesystem ≡ true
      → is_file s.namesystem.tree path ≡ false
      → 0 < block_size
      → (s' : Served) × (write_file cluster block_size path bytes overwrite w
          ≡ (Run.returned Status.ok, record w { name_node = some s' }))
        × (s'.namesystem ≡ s.namesystem)
  unfolding write_file write_loop start_file
  write_file_refused [] w s up safe nf hb = (
    s,
    ap
        (λ (x : Option Served).
          let w' : World = record w { name_node = x } in (Run.returned Status.ok, w'))
        up,
    refl,
  )
  write_file_refused (b ∷ bs) w s up safe nf hb =
      let none_made : start_file (draws s.requests).0 path overwrite s.namesystem
          ≡ (s.namesystem, no_block) =
        rw (start_file, safe) refl in
      let answer : FsNamesystem × Allocation → (Status × Bytes) × World = λ a. (
        (Status.ok, write_fields [] (allocation_fields a.1)),
        record w { name_node = some (served s a.0) },
      ) in
      let step =
        skipped true (length bs) b bs w (record w { name_node = some (served s s.namesystem) })
          (call_start_file draws w s up path overwrite short ∙ ap answer none_made) in
      let shrunk : length (drop block_size (b ∷ bs)) ≡ length (b ∷ bs) - block_size =
        length-drop block_size (b ∷ bs) in
      let (s', e, same) =
        loop_refused (length bs) (drop block_size (b ∷ bs))
          (record w { name_node = some (served s s.namesystem) }) (served s s.namesystem) refl nf hb
          (omega (arith, shrunk, hb)) in
      (s', step ∙ e, same)
