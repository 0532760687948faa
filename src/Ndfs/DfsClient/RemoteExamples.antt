-- ===== src/Ndfs/DfsClient/RemoteExamples.antt =====
-- A concrete connection of src/ndfs/dfs_client.h to a NameNode with nothing stored.
use mini_hadoop.Common.{◌≡◌, refl, true, [], ◌∷◌, ◌++◌, arith, ok, if◌then◌else◌}
use mini_hadoop.Common.Int.{pos, to_u32, of_u32}
use mini_hadoop.Common.Assoc.{lookup}
use mini_hadoop.Common.Text.{Bytes, codes, str_eq}
use mini_hadoop.Status.{Status}
use mini_hadoop.Io.Buffer.{
  write_bool, write_byte, write_string, read_int, read_string, read_raw, container_size,
}
use mini_hadoop.Ipc.Socket.{Incoming, read_full, write_full}
use mini_hadoop.Ipc.Socket.Stream.{concat}
use mini_hadoop.Ipc.Rpc.{frame, receive, dispatch, Ending, serve}
use mini_hadoop.Ipc.Rpc.Client.{request}
use mini_hadoop.Ndfs.InodeTree.{
  mkdirs, mkdirs_at, split_path, split_loop, find_child, push_child, set_child,
}
use mini_hadoop.Ndfs.FsNamesystem.{initial}
use mini_hadoop.Ndfs.FsNamesystem.Client.{make_dirs}
use mini_hadoop.Ndfs.NameNode.{handle_mkdirs}
use mini_hadoop.Ndfs.NameNode.Server.{Served, Draws, handlers}
use mini_hadoop.Ndfs.DfsClient.{client_mkdirs}
use mini_hadoop.Ndfs.DfsClient.Remote.{call_over, path_message, flag_reply, client_mkdirs-make_dirs}

abbrev path : Bytes
path = codes "/a"

abbrev start : Served
start = record { namesystem = initial; requests = 0 }

abbrev draws : Draws
draws n = (pos 7, pos 100)

made : (make_dirs path initial).1 ≡ true
unfolding make_dirs mkdirs mkdirs_at split_path split_loop find_child push_child set_child str_eq
made = refl

abbrev asked : Incoming
asked = (0 ∷ 0 ∷ 0 ∷ 10 ∷ 0 ∷ 0 ∷ 0 ∷ 4 ∷ []) ∷ (0 ∷ 0 ∷ 0 ∷ 2 ∷ []) ∷ codes "/a" ∷ []

abbrev answer : Incoming
answer = (0 ∷ []) ∷ (0 ∷ 0 ∷ 1 ∷ 1 ∷ []) ∷ []

asked_all : write_full (8 ∷ 8 ∷ []) (path_message 4 path) ≡ (path_message 4 path, true)
unfolding write_full frame request write_string
asked_all = refl

answered_all : write_full (5 ∷ []) (frame (flag_reply true)) ≡ (frame (flag_reply true), true)
unfolding write_full frame write_bool write_byte
answered_all = refl

asked_bytes : concat asked ≡ path_message 4 path
unfolding frame request write_string to_u32 of_u32
asked_bytes = refl

answer_bytes : concat answer ≡ (serve (handlers draws) ((5 ∷ []) ∷ []) start asked).0
unfolding serve receive read_full dispatch read_int lookup of_u32 to_u32 write_full frame handlers
    handle_mkdirs read_string read_raw container_size write_bool write_byte make_dirs mkdirs
    mkdirs_at split_path split_loop find_child push_child set_child str_eq
answer_bytes = refl

client_mkdirs-make_dirs_example :
    (client_mkdirs (call_over (8 ∷ 8 ∷ []) answer) path
      ≡ ok (
          if (make_dirs path initial).1
          then Status.ok
          else Status.io_error (codes "mkdirs failed: " ++ path)))
    × ((serve (handlers draws) ((5 ∷ []) ∷ []) start asked).1
        ≡ Ending.closed (record { namesystem = (make_dirs path initial).0; requests = 1 }))
client_mkdirs-make_dirs_example =
    client_mkdirs-make_dirs draws path start (8 ∷ 8 ∷ []) (5 ∷ []) asked answer (omega arith)
      asked_all (rw made answered_all) (asked_bytes, ((λ e. cc), ((λ e. cc), ((λ e. cc), tt))))
      (answer_bytes, ((λ e. cc), ((λ e. cc), tt)))
