-- ===== src/Ndfs/FsNamesystem/SafeMode.antt =====
-- The safe mode of `FsNamesystem`.
use mini_hadoop.Common.{ℕ, suc, ◌-◌, Bool, not, ◌&&◌, List, [], ◌∷◌, ◌==◌}
use mini_hadoop.Common.Int.{ℤ}
use mini_hadoop.Common.Assoc.{Map}
use mini_hadoop.Ndfs.FsNamesystem.{FsNamesystem, DataNodeInfo, in_safe_mode}

unfoldable pub enter_safe_mode : FsNamesystem → FsNamesystem
enter_safe_mode s = record s { safe_mode_countdown = 30 }

unfoldable pub count_blocks : Map ℤ (List DataNodeInfo) → ℕ
count_blocks [] = 0
count_blocks (_ ∷ m) = suc (count_blocks m)

unfoldable pub count_safe : Map ℤ (List DataNodeInfo) → ℕ
count_safe [] = 0
count_safe ((_, []) ∷ m) = count_safe m
count_safe ((_, dn ∷ dns) ∷ m) = suc (count_safe m)

-- The countdown stops at 0.
unfoldable pub update_safe_mode : FsNamesystem → FsNamesystem
unfolding count_blocks count_safe
update_safe_mode s = record s {
  total_blocks = count_blocks s.block_to_datanodes;
  safe_blocks = count_safe s.block_to_datanodes;
  safe_mode_countdown = s.safe_mode_countdown - 1;
}

unfoldable pub can_write : FsNamesystem → Bool
can_write s = s.safe_mode_countdown == 0 && not (in_safe_mode s)
