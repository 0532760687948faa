-- ===== src/Status.antt =====
-- src/common/error.h: the result of an operation, with its message.
use mini_hadoop.Common.{Bool, true, false, []}
use mini_hadoop.Common.Text.{Bytes}

pub data Status : Type 0 where
  ok : Status
  io_error corrupt not_found invalid_arg : Bytes → Status

-- `ok()`
abbrev pub is_ok : Status → Bool
is_ok ok = true
is_ok _ = false

abbrev pub message : Status → Bytes
message ok = []
message (io_error m) = m
message (corrupt m) = m
message (not_found m) = m
message (invalid_arg m) = m
