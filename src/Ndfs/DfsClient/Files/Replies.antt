-- ===== src/Ndfs/DfsClient/Files/Replies.antt =====
-- The calls of `WriteFile` and `ReadFile` in src/ndfs/dfs_client.h, as the NameNode answers them.
use mini_hadoop.Common.{
  false, if◌then◌else◌, length-append, ℕ, suc, ◌+◌, ◌^◌, ◌≤◌, ◌<◌, ◌≡◌, refl, sym, subst, Bool,
  List, [], ◌∷◌, append-nil, length, some, arith, All, ok,
}
use mini_hadoop.Common.Int.{eqb_ℤ, pos, wrap32}
use mini_hadoop.Common.Text.{Bytes}
use mini_hadoop.Common.Assoc.{lookup}
use mini_hadoop.Status.{Status}
use mini_hadoop.Io.Buffer.{read_string, read_bool}
use mini_hadoop.Io.Buffer.Cursor.{Reads, map-Reads, >>=-Reads}
use mini_hadoop.Io.Buffer.RoundTrip.{sized, read_string-Reads, read_bool-Reads}
use mini_hadoop.Io.Buffer.Fields.{
  Field, IsFit, fields_bytes, write_fields, write_fields-append, int, string,
}
use mini_hadoop.Ipc.Rpc.{Handler, max_message, refused, dispatch}
use mini_hadoop.Ipc.Rpc.Client.{request}
use mini_hadoop.Ipc.Rpc.Calls.{dispatch-request}
use mini_hadoop.Ndfs.FsNamesystem.{FsNamesystem, Block, DataNodeInfo}
use mini_hadoop.Ndfs.FsNamesystem.Client.{start_file, add_block, get_blocks}
use mini_hadoop.Ndfs.FsNamesystem.DataNodes.{block_received}
use mini_hadoop.Ndfs.NameNode.{
  read_reported, allocation_fields, located_fields, handle_start_file, handle_add_block,
  handle_get_blocks, handle_block_received,
}
use mini_hadoop.Ndfs.NameNode.Server.{Served, Draws, handlers}
use mini_hadoop.Ndfs.DfsClient.{start_file_request, add_block_request}
use mini_hadoop.Ndfs.DfsClient.Protocol.{read_block-Reads, IsFitBlock}
use mini_hadoop.Ndfs.DfsClient.Remote.{counted-Reads}
use mini_hadoop.Ndfs.DfsClient.Files.{received_request}
use mini_hadoop.Ndfs.DfsClient.Files.World.{World, call_name_node}

-- The state of the server after one more request.
abbrev pub served : Served → FsNamesystem → Served
served s fs = record { namesystem = fs; requests = suc s.requests }

module _ (draws : Draws) (w : World) (s : Served) (up : w.name_node ≡ some s) where
  call_dispatched :
      (op : ℕ) (body : Bytes) (s' : Served) (resp : Bytes)
      → length body + 4 ≤ max_message
      → dispatch (handlers draws) s (request (pos op) body) ≡ ok (s', resp)
      → call_name_node draws op body w ≡ ((Status.ok, resp), record w { name_node = some s' })
  unfolding call_name_node request
  call_dispatched op body s' resp small ed =
      let taken : refused (length (request (pos op) body)) ≡ false = ground arith in
      rw (call_name_node, up, ed, taken) refl

  -- A call whose handler reads its request.
  call_answered :
      (op : ℕ) (handler : Handler Served) (request_fields reply_fields : List Field)
      (fs : FsNamesystem)
      → op < 2 ^ 31
      → lookup eqb_ℤ (pos op) (handlers draws) ≡ some handler
      → All IsFit request_fields
      → length (fields_bytes request_fields) + 4 ≤ max_message
      → Reads (handler s) (served s fs, write_fields [] reply_fields) (fields_bytes request_fields)
      → call_name_node draws op (write_fields [] request_fields) w
        ≡ ((Status.ok, write_fields [] reply_fields), record w { name_node = some (served s fs) })
  call_answered op handler request_fields reply_fields fs hop el fit small reads =
      let e = write_fields-append [] request_fields fit in
      let ed =
        dispatch-request (handlers draws) handler (pos op) (fields_bytes request_fields) s
          (served s fs) (write_fields [] reply_fields) el hop small reads in
      call_dispatched op (write_fields [] request_fields) (served s fs)
        (write_fields [] reply_fields)
        (subst (λ (bs : Bytes). length bs + 4 ≤ max_message) (sym e) small)
        (subst
          (λ (bs : Bytes).
            dispatch (handlers draws) s (request (pos op) bs)
            ≡ ok (served s fs, write_fields [] reply_fields))
          (sym e) ed)

  pub call_start_file :
      (path : Bytes) (overwrite : Bool)
      → length path + 16 ≤ max_message
      → let (fs, allocation) = start_file (draws s.requests).0 path overwrite s.namesystem in
        call_name_node draws 0 (write_fields [] (start_file_request path overwrite)) w ≡ (
          (Status.ok, write_fields [] (allocation_fields allocation)),
          record w { name_node = some (served s fs) },
        )
  unfolding handlers lookup handle_start_file
  call_start_file path overwrite h =
      let id = (draws s.requests).0 in
      let size : length path < 2 ^ 31 = omega (arith, h) in
      call_answered 0 _ (start_file_request path overwrite)
        (allocation_fields (start_file id path overwrite s.namesystem).1)
        (start_file id path overwrite s.namesystem).0 (omega arith) refl (size, (tt, tt))
        (omega (arith, h, length-append path ((if overwrite then 1 else 0) ∷ [])))
        (counted-Reads draws (λ id now. handle_start_file id) s _ _ _
          (>>=-Reads read_string _ (read_string-Reads path size)
            (map-Reads read_bool _ (read_bool-Reads overwrite))))

  pub call_add_block :
      (path : Bytes)
      → length path + 16 ≤ max_message
      → let (fs, allocation) = add_block (draws s.requests).0 path s.namesystem in
        call_name_node draws 1 (write_fields [] (add_block_request path)) w ≡ (
          (Status.ok, write_fields [] (allocation_fields allocation)),
          record w { name_node = some (served s fs) },
        )
  unfolding handlers lookup handle_add_block
  call_add_block path h =
      let id = (draws s.requests).0 in
      let size : length path < 2 ^ 31 = omega (arith, h) in
      call_answered 1 _ (add_block_request path)
        (allocation_fields (add_block id path s.namesystem).1) (add_block id path s.namesystem).0
        (omega arith) refl (size, tt) (omega (arith, h, length-append path []))
        (counted-Reads draws (λ id now. handle_add_block id) s _ _ _
          (subst (Reads _ _) (sym (append-nil (sized path)))
            (map-Reads read_string _ (read_string-Reads path size))))

  pub call_get_blocks :
      (path : Bytes)
      → length path + 16 ≤ max_message
      → let (blocks, located) = get_blocks path s.namesystem in
        call_name_node draws 2 (write_fields [] (string path ∷ [])) w ≡ (
          (
            Status.ok,
            write_fields [] (int (wrap32 (pos (length blocks))) ∷ located_fields blocks located),
          ),
          record w { name_node = some (served s s.namesystem) },
        )
  unfolding handlers lookup handle_get_blocks
  call_get_blocks path h =
      let size : length path < 2 ^ 31 = omega (arith, h) in
      call_answered 2 _ (string path ∷ [])
        (int (wrap32 (pos (length (get_blocks path s.namesystem).0)))
          ∷ located_fields (get_blocks path s.namesystem).0 (get_blocks path s.namesystem).1)
        s.namesystem (omega arith) refl (size, tt) (omega (arith, h, length-append path []))
        (counted-Reads draws (λ id now. handle_get_blocks) s _ _ _
          (subst (Reads _ _) (sym (append-nil (sized path)))
            (map-Reads read_string _ (read_string-Reads path size))))

  pub call_block_received :
      (block : Block) (n : ℕ) (dn : DataNodeInfo)
      → length dn.dn_name + 64 ≤ max_message
      → IsFitBlock block
      → n < 2 ^ 63
      → call_name_node draws 8 (write_fields [] (received_request block n dn)) w ≡ (
        (Status.ok, write_fields [] (int (pos 1) ∷ [])),
        record w {
          name_node = some (
              served s
                (block_received dn.dn_name (record block { num_bytes = pos n }) s.namesystem));
        },
      )
  unfolding handlers lookup handle_block_received
  call_block_received block n dn h (hi, hb, hs) hn =
      let size : length dn.dn_name < 2 ^ 31 = omega (arith, h) in
      call_answered 8 _ (received_request block n dn) (int (pos 1) ∷ []) _ (omega arith) refl
        (size, (hi, (hn, (hs, (omega arith, tt))))) (omega (arith, h, length-append dn.dn_name _))
        (counted-Reads draws (λ id now. handle_block_received) s _ _ _
          (>>=-Reads read_string _ (read_string-Reads dn.dn_name size) (
            >>=-Reads read_reported _
              (read_block-Reads (record block { num_bytes = pos n }) (hi, hn, hs))
              (map-Reads read_string _ (read_string-Reads [] (omega arith))))))
