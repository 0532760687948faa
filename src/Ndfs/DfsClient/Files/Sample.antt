-- ===== src/Ndfs/DfsClient/Files/Sample.antt =====
-- A cluster with one DataNode, on which the tests write and read files.
use mini_hadoop.Common.{◌+◌, ◌≡◌, refl, Bool, true, false, [], ◌∷◌, some, arith}
use mini_hadoop.Common.Int.{ℤ, pos}
use mini_hadoop.Common.Text.{Bytes, codes, str_eq}
use mini_hadoop.Common.Assoc.{lookup}
use mini_hadoop.Ndfs.InodeTree.{
  mkdirs, mkdirs_at, create_file, create_file_at, get_node, get_node_at, split_path, split_loop,
  find_child, push_child, set_child,
}
use mini_hadoop.Ndfs.FsNamesystem.{
  DataNodeInfo, initial, in_safe_mode, choose_targets, default_replication,
}
use mini_hadoop.Ndfs.FsNamesystem.Client.{get_parent_dir, started_tree}
use mini_hadoop.Ndfs.NameNode.Server.{Served, Draws}
use mini_hadoop.Ndfs.DfsClient.Files.World.{World, address, address_eq}
use mini_hadoop.Ndfs.DfsClient.Files.Conditions.{IsDistinct, IsFitCluster}

abbrev pub node : DataNodeInfo
node = record {
  dn_name = codes "dn1";
  host = codes "h";
  port = pos 9001;
  capacity = pos 1000;
  remaining = pos 900;
  last_update = pos 5;
}

abbrev pub path : Bytes
path = codes "/a"

abbrev pub start : Served
start = record {
  namesystem = record initial { datanodes = (codes "dn1", node) ∷ [] };
  requests = 0;
}

abbrev pub empty : World
empty = record { name_node = some start; nodes = (address node, []) ∷ [] }

abbrev pub draws : Draws
draws n = (pos (n + 10), pos 100)

abbrev pub name_of : ℤ → Bytes
name_of id = b'/' ∷ []

pub draws-IsDistinct : IsDistinct draws 16
draws-IsDistinct = record { fits = λ i h. omega arith; distinct = λ i j less h. ground arith }

pub cluster-IsFit : IsFitCluster path node []
cluster-IsFit = record {
  nodes = ((omega arith, omega arith, omega arith, omega arith, omega arith, omega arith), tt);
  names = (omega arith, tt);
  few = omega arith;
  small = omega arith;
  short = omega arith;
}

pub out_of_safe_mode : in_safe_mode start.namesystem ≡ false
unfolding in_safe_mode
out_of_safe_mode = refl

pub file_made : (overwrite : Bool) → (started_tree path overwrite start.namesystem.tree).1 ≡ true
unfolding get_node mkdirs create_file mkdirs_at create_file_at split_path split_loop get_node_at
    find_child push_child set_child str_eq get_parent_dir
file_made true = refl
file_made false = refl

pub node_chosen : choose_targets default_replication start.namesystem ≡ node ∷ []
unfolding choose_targets
node_chosen = refl

pub node_reached : lookup address_eq (address node) empty.nodes ≡ some []
unfolding lookup str_eq
node_reached = refl
