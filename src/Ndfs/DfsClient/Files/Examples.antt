-- ===== src/Ndfs/DfsClient/Files/Examples.antt =====
-- A file of three bytes in two blocks, written to a cluster with one DataNode and read back.
use mini_hadoop.Common.{◌≢◌, ◌≡◌, refl, true, false, not, ◌&&◌, [], ◌∷◌, some, arith, ok}
use mini_hadoop.Common.Text.{str_eq}
use mini_hadoop.Status.{Status}
use mini_hadoop.Ndfs.InodeTree.{get_node, get_node_at, split_path, split_loop, find_child}
use mini_hadoop.Ndfs.FsNamesystem.{initial, in_safe_mode}
use mini_hadoop.Ndfs.FsNamesystem.Client.{is_file, exists}
use mini_hadoop.Ndfs.NameNode.Server.{Served}
use mini_hadoop.Ndfs.DfsClient.Files.{Run, write_file, read_file}
use mini_hadoop.Ndfs.DfsClient.Files.World.{World, world}
use mini_hadoop.Ndfs.DfsClient.Files.Sample.{
  path, start, node, empty, draws, name_of, draws-IsDistinct, cluster-IsFit, out_of_safe_mode,
  file_made, node_chosen, node_reached,
}
use mini_hadoop.Ndfs.DfsClient.Files.Refused.{write_file_refused}
use mini_hadoop.Ndfs.DfsClient.Files.Termination.{write_file-ne-stuck}
use mini_hadoop.Ndfs.DfsClient.Files.Reading.{read_file-write_file}

path_free : (exists start.namesystem.tree path && not false) ≡ false
unfolding get_node get_node_at split_path split_loop find_child str_eq
path_free = refl

read_file-write_file_example :
    let cluster = world draws name_of 100 in
    let written = write_file cluster 2 path (7 ∷ 8 ∷ 9 ∷ []) false empty in
    (written.0 ≡ Run.returned Status.ok)
    × ((read_file cluster name_of path [] written.1).0 ≡ ok (Status.ok, 7 ∷ 8 ∷ 9 ∷ []))
read_file-write_file_example =
    read_file-write_file path node [] cluster-IsFit draws name_of 100 name_of 2 false 7 (8 ∷ 9 ∷ [])
      [] empty start [] 16 refl out_of_safe_mode path_free (file_made false) node_chosen
      node_reached draws-IsDistinct (omega arith) (omega arith) (omega arith) (omega arith)
      (omega arith)

-- A NameNode without DataNodes is in safe mode.
abbrev safe : Served
safe = record { namesystem = initial; requests = 0 }

abbrev alone : World
alone = record { name_node = some safe; nodes = [] }

in_safe : in_safe_mode initial ≡ true
unfolding in_safe_mode
in_safe = refl

no_file : is_file initial.tree path ≡ false
unfolding get_node get_node_at split_path split_loop find_child str_eq
no_file = refl

write_file_refused_example :
    (s' : Served) × (write_file (world draws name_of 100) 2 path (7 ∷ 8 ∷ 9 ∷ []) true alone
      ≡ (Run.returned Status.ok, record alone { name_node = some s' }))
    × (s'.namesystem ≡ initial)
write_file_refused_example =
    write_file_refused draws path (omega arith) name_of 100 2 true (7 ∷ 8 ∷ 9 ∷ []) alone safe refl
      in_safe no_file (omega arith)

write_file-ne-stuck_example :
    (write_file (world draws name_of 100) 2 path (7 ∷ 8 ∷ 9 ∷ []) true alone).0 ≢ Run.stuck
write_file-ne-stuck_example =
    write_file-ne-stuck (world draws name_of 100) 2 path true (omega arith) (7 ∷ 8 ∷ 9 ∷ []) alone
