-- ===== src/Ndfs/DfsClient/Remote.antt =====
-- `Mkdirs` and `Delete` of src/ndfs/dfs_client.h, over a connection to the server of the NameNode.
use mini_hadoop.Common.{
  append-nil, length-append, ℕ, suc, ◌+◌, ◌^◌, ◌≤◌, ◌<◌, ◌≡◌, refl, sym, subst, Bool, true, List,
  [], ◌∷◌, ◌++◌, length, some, arith, ok, if◌then◌else◌,
}
use mini_hadoop.Common.Int.{eqb_ℤ, ℤ, pos}
use mini_hadoop.Common.Text.{Bytes, codes}
use mini_hadoop.Common.Assoc.{lookup}
use mini_hadoop.Status.{Status}
use mini_hadoop.Io.Buffer.{
  ◌>>=◌, return, OutputBuffer, read_string, write_byte, write_bool, InputBuffer, reset, read_bool,
}
use mini_hadoop.Io.Buffer.Cursor.{Reads, map-Reads}
use mini_hadoop.Io.Buffer.RoundTrip.{sized, read_string-Reads, read_bool-Reads}
use mini_hadoop.Io.Buffer.Fields.{
  bool, string, write_fields, fields_bytes, write_fields-append, read_message,
}
use mini_hadoop.Ipc.Socket.{Incoming, write_full}
use mini_hadoop.Ipc.Socket.Stream.{Delivers}
use mini_hadoop.Ipc.Rpc.{Handler, Handlers, max_message, frame, Ending, serve}
use mini_hadoop.Ipc.Rpc.Client.{request, call_raw}
use mini_hadoop.Ipc.Rpc.Calls.{call_raw_sent, dispatch-request, call_raw-serve}
use mini_hadoop.Ndfs.FsNamesystem.Client.{make_dirs, delete_path}
use mini_hadoop.Ndfs.FsNamesystem.{FsNamesystem}
use mini_hadoop.Ndfs.NameNode.{handle_mkdirs, handle_delete}
use mini_hadoop.Ndfs.NameNode.Server.{counted, Served, Draws, handlers}
use mini_hadoop.Ndfs.DfsClient.{ask, client_mkdirs, client_delete}

-- `CallRaw` as `DfsClient` uses it.
abbrev pub call_over : List ℕ → Incoming → ℕ → Bytes → Status × Bytes
call_over takes segments op body =
    let (st, resp, left) = (call_raw takes segments (pos op) body).1 in (st, resp)

-- The message of a request that names a path.
abbrev pub path_message : ℕ → Bytes → Bytes
path_message op path = frame (request (pos op) (write_fields [] (string path ∷ [])))

abbrev pub flag_reply : Bool → Bytes
flag_reply done = write_fields [] (bool done ∷ [])

flag_reply_short : (done : Bool) → length (flag_reply done) < 2 ^ 31
unfolding write_bool write_byte
flag_reply_short done = omega arith

-- How the client reads a reply of one `bool`.
read-flag_reply :
    (done : Bool) → (end : InputBuffer) × (read_bool (reset (flag_reply done)) ≡ ok (done, end))
read-flag_reply done = (
  _,
  read_message read_bool done (bool done ∷ []) (tt, tt)
      (let e = flag_reply_short done in omega arith) (read_bool-Reads done),
)

ask-answered :
    (call : ℕ → Bytes → Status × Bytes) (op : ℕ) (failure path : Bytes) (done : Bool)
    → (call op (write_fields [] (string path ∷ []))).0 ≡ Status.ok
    → (call op (write_fields [] (string path ∷ []))).1 ≡ flag_reply done
    → ask call op failure path ≡ ok (if done then Status.ok else Status.io_error (failure ++ path))
ask-answered call op failure path done e e' =
    let (end, er) = read-flag_reply done in rw (ask, e, e', er) refl

-- One call by `ask` for a method that answers with one `bool`.
ask_over :
    {S : Type 0} (registered : Handlers S) (handler : Handler S) (op : ℕ) (failure path : Bytes)
    (s s' : S) (done : Bool) (takes reply_takes : List ℕ) (to_server to_client : Incoming)
    → op < 2 ^ 31
    → length path + 8 ≤ max_message
    → lookup eqb_ℤ (pos op) registered ≡ some handler
    → Reads (handler s) (s', flag_reply done) (fields_bytes (string path ∷ []))
    → write_full takes (path_message op path) ≡ (path_message op path, true)
    → write_full reply_takes (frame (flag_reply done)) ≡ (frame (flag_reply done), true)
    → Delivers to_server (path_message op path)
    → Delivers to_client (serve registered (reply_takes ∷ []) s to_server).0
    → (ask (call_over takes to_client) op failure path
        ≡ ok (if done then Status.ok else Status.io_error (failure ++ path)))
      × ((serve registered (reply_takes ∷ []) s to_server).1 ≡ Ending.closed s')
ask_over registered handler op failure path s s' done takes reply_takes to_server to_client hop
      small el reads ew ew' hs hc =
    let body = write_fields [] (string path ∷ []) in
    let e : body ≡ fields_bytes (string path ∷ []) =
      write_fields-append [] (string path ∷ []) (omega arith, tt) in
    let len : length body + 4 ≤ max_message =
      subst (λ (bs : Bytes). length bs + 4 ≤ max_message) (sym e)
        (omega (arith, small, length-append path [])) in
    let ed =
      dispatch-request registered handler (pos op) body s s' (flag_reply done) el hop len
        (subst (Reads (handler s) (s', flag_reply done)) (sym e) reads) in
    let sent = call_raw_sent takes to_client (pos op) body ew in
    let (end, st, resp) =
      call_raw-serve registered (pos op) body s s' (flag_reply done) takes reply_takes to_server
        to_client len (flag_reply_short done) ed ew ew' (subst (Delivers to_server) (sym sent) hs)
        hc in
    (ask-answered (call_over takes to_client) op failure path done st resp, end)

pub counted-Reads :
    (draws : Draws) (handle : ℤ → ℤ → mini_hadoop.Ndfs.NameNode.Handler) (s : Served)
    (fs : FsNamesystem) (resp bs : Bytes)
    → Reads (handle (draws s.requests).0 (draws s.requests).1 s.namesystem) (fs, resp) bs
    → Reads
        (counted draws handle s)
        (record { namesystem = fs; requests = suc s.requests }, resp)
        bs
counted-Reads draws handle s fs resp bs h =
    let count : FsNamesystem × OutputBuffer → Served × OutputBuffer =
      λ (fs', resp'). (record { namesystem = fs'; requests = suc s.requests }, resp') in
    map-Reads (handle (draws s.requests).0 (draws s.requests).1 s.namesystem) count h

-- A handler that reads a path, runs a method on it and answers with its flag.
abbrev answered :
    (Bytes → FsNamesystem → FsNamesystem × Bool)
    → FsNamesystem
    → Bytes
    → FsNamesystem × OutputBuffer
answered method fs p = ((method p fs).0, flag_reply (method p fs).1)

path-Reads :
    (path : Bytes) (method : Bytes → FsNamesystem → FsNamesystem × Bool) (fs : FsNamesystem)
    → length path < 2 ^ 31
    → Reads
        (read_string >>= λ p. return (answered method fs p))
        (answered method fs path)
        (fields_bytes (string path ∷ []))
path-Reads path method fs h =
    subst (Reads _ _) (sym (append-nil (sized path)))
      (map-Reads read_string (answered method fs) (read_string-Reads path h))

module _ (draws : Draws) (path : Bytes) (s : Served) (takes reply_takes : List ℕ)
    (to_server to_client : Incoming) (small : length path + 8 ≤ max_message) where
  -- A client and the NameNode talk over a connection: the client calls Mkdirs for a path of at most
  -- 64 MiB less 8 bytes, each side takes all that the other sends, and the streams are cut into
  -- segments in any way. Then the client gets OK if `make_dirs` succeeds and the failure with the
  -- path if not, and the NameNode is left with the state that `make_dirs` gives.
  pub client_mkdirs-make_dirs :
      write_full takes (path_message 4 path) ≡ (path_message 4 path, true)
      → write_full reply_takes (frame (flag_reply (make_dirs path s.namesystem).1))
        ≡ (frame (flag_reply (make_dirs path s.namesystem).1), true)
      → Delivers to_server (path_message 4 path)
      → Delivers to_client (serve (handlers draws) (reply_takes ∷ []) s to_server).0
      → (client_mkdirs (call_over takes to_client) path
          ≡ ok (
              if (make_dirs path s.namesystem).1
              then Status.ok
              else Status.io_error (codes "mkdirs failed: " ++ path)))
        × ((serve (handlers draws) (reply_takes ∷ []) s to_server).1
            ≡ Ending.closed (record {
              namesystem = (make_dirs path s.namesystem).0;
              requests = suc s.requests;
            }))
  unfolding client_mkdirs handlers lookup handle_mkdirs
  client_mkdirs-make_dirs ew ew' hs hc =
      ask_over (handlers draws) _ 4 (codes "mkdirs failed: ") path s _
        (make_dirs path s.namesystem).1 takes reply_takes to_server to_client (omega arith) small
        refl
        (counted-Reads draws (λ id now. handle_mkdirs) s _ _ _
          (path-Reads path make_dirs s.namesystem (omega (arith, small))))
        ew ew' hs hc

  -- The same for Delete and `delete_path`.
  pub client_delete-delete_path :
      write_full takes (path_message 3 path) ≡ (path_message 3 path, true)
      → write_full reply_takes (frame (flag_reply (delete_path path s.namesystem).1))
        ≡ (frame (flag_reply (delete_path path s.namesystem).1), true)
      → Delivers to_server (path_message 3 path)
      → Delivers to_client (serve (handlers draws) (reply_takes ∷ []) s to_server).0
      → (client_delete (call_over takes to_client) path
          ≡ ok (
              if (delete_path path s.namesystem).1
              then Status.ok
              else Status.io_error (codes "delete failed: " ++ path)))
        × ((serve (handlers draws) (reply_takes ∷ []) s to_server).1
            ≡ Ending.closed (record {
              namesystem = (delete_path path s.namesystem).0;
              requests = suc s.requests;
            }))
  unfolding client_delete handlers lookup handle_delete
  client_delete-delete_path ew ew' hs hc =
      ask_over (handlers draws) _ 3 (codes "delete failed: ") path s _
        (delete_path path s.namesystem).1 takes reply_takes to_server to_client (omega arith) small
        refl
        (counted-Reads draws (λ id now. handle_delete) s _ _ _
          (path-Reads path delete_path s.namesystem (omega (arith, small))))
        ew ew' hs hc
