-- ===== src/Ndfs/DfsClient/Files/Termination.antt =====
-- The end of the loop of `WriteFile` in src/ndfs/dfs_client.h, for any cluster.
use mini_hadoop.Common.{
  ℕ, zero, suc, ◌-◌, ◌≤◌, ◌<◌, ◌≡◌, ◌≢◌, Bool, true, false, [], ◌∷◌, length, length-drop, take,
  drop, arith, Outcome-cases, Bool-cases, inl, inr, if◌then◌else◌,
}
use mini_hadoop.Common.Text.{Bytes}
use mini_hadoop.Status.{is_ok}
use mini_hadoop.Io.Buffer.{reset}
use mini_hadoop.Io.Buffer.Fields.{write_fields}
use mini_hadoop.Ndfs.DfsClient.{read_allocation, start_file_request, add_block_request}
use mini_hadoop.Ndfs.DfsClient.Files.{Cluster, Run, send_chunk, confirm, write_loop, write_file}

module _ {W : Type 0} (cluster : Cluster W) (block_size : ℕ) (path : Bytes) (overwrite : Bool)
    (positive : 0 < block_size) where
  loop_ends :
      (fuel : ℕ) (first : Bool) (bytes : Bytes) (w : W)
      → length bytes ≤ fuel
      → (write_loop cluster block_size fuel path overwrite first bytes w).0 ≢ Run.stuck
  unfolding write_loop
  loop_ends zero first [] w h = λ e. cc
  loop_ends (suc fuel) first [] w h = λ e. cc
  loop_ends zero first (b ∷ bs) w h = absurd (omega (arith, h))
  loop_ends (suc fuel) first (b ∷ bs) w h =
      let request = if first then start_file_request path overwrite else add_block_request path in
      let reply = cluster.call (if first then 0 else 1) (write_fields [] request) w in
      let shrunk : length (drop block_size (b ∷ bs)) ≡ length (b ∷ bs) - block_size =
        length-drop block_size (b ∷ bs) in
      elim (Bool-cases (is_ok reply.0.0)) [
        | inr e ↦ rw (write_loop, e) (λ s. cc)
        | inl e ↦ elim (Outcome-cases (read_allocation (reset reply.0.1))) [
          | inl (t, e') ↦ rw (write_loop, e, e') (λ s. cc)
          | inr ((allocation, end), e') ↦
              rw (write_loop, e, e')
                (loop_ends fuel false (drop block_size (b ∷ bs))
                  (confirm cluster allocation.0 (length (take block_size (b ∷ bs))) allocation.1
                    (send_chunk cluster allocation (take block_size (b ∷ bs)) reply.1))
                  (omega (arith, shrunk, h)))
        ]
      ]

  -- For a block size other than 0 and any cluster, `WriteFile` ends: it returns a status, or an
  -- exception leaves it.
  pub write_file-ne-stuck :
      (bytes : Bytes) (w : W) → (write_file cluster block_size path bytes overwrite w).0 ≢ Run.stuck
  unfolding write_file
  write_file-ne-stuck bytes w = loop_ends (length bytes) true bytes w (omega arith)
