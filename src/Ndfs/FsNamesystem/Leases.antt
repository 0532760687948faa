-- ===== src/Ndfs/FsNamesystem/Leases.antt =====
-- The leases of `FsNamesystem`.
use mini_hadoop.Common.{[], ◌∷◌, if◌then◌else◌}
use mini_hadoop.Common.Int.{ℤ, pos, ◌+ℤ◌, ltb_ℤ}
use mini_hadoop.Common.Text.{Bytes, str_eq}
use mini_hadoop.Common.Assoc.{Map, insert, erase}
use mini_hadoop.Ndfs.InodeTree.{INode, delete}
use mini_hadoop.Ndfs.FsNamesystem.{FsNamesystem, Lease}

-- `kLeaseTimeout`, in seconds.
abbrev pub lease_timeout : ℤ
lease_timeout = pos 60

unfoldable pub add_lease : ℤ → Bytes → Bytes → FsNamesystem → FsNamesystem
add_lease now holder path s =
    let lease : Lease = record {
      holder = holder;
      lease_path = path;
      expiry = now +ℤ lease_timeout;
    } in
    record s { leases = insert str_eq path lease s.leases }

unfoldable pub remove_lease : Bytes → FsNamesystem → FsNamesystem
remove_lease path s = record s { leases = erase str_eq path s.leases }

-- The loop of `CheckLeases`: what is left of the tree and of the leases.
unfoldable pub check_loop : ℤ → Map Bytes Lease → INode → INode × Map Bytes Lease
check_loop now [] tree = (tree, [])
check_loop now ((path, l) ∷ m) tree =
    let expired = check_loop now m (delete tree l.lease_path).0 in
    let kept = check_loop now m tree in
    if ltb_ℤ l.expiry now then expired else (kept.0, (path, l) ∷ kept.1)

unfoldable pub check_leases : ℤ → FsNamesystem → FsNamesystem
unfolding check_loop
check_leases now s =
    let (tree', leases') = check_loop now s.leases s.tree in
    record s { tree = tree'; leases = leases' }
