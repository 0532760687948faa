-- ===== src/Ipc/Socket.antt =====
-- `ReadFull` and `WriteFull`, which src/ipc/server.h, src/ipc/client.h,
-- src/ndfs/data_xceive_server.h and src/ndfs/dfs_client.h (`recv_full`, `send_full`) have in the same
-- words. What `recv` delivers is a list of segments: a call returns the first, or as much of it as it
-- asked for. No segment, and an empty one, stand for the end of the stream or an error. What `send`
-- takes is a list of numbers, one for each call.
pub mod Stream
use mini_hadoop.Common.{
  ℕ, zero, suc, ◌-◌, Bool, true, false, List, [], ◌∷◌, ◌++◌, Option, none, some, length, take, drop,
  leb, ltb, if◌then◌else◌,
}
use mini_hadoop.Common.Text.{Bytes}

abbrev pub Incoming : Type 0
Incoming = List Bytes

abbrev pub prepend : Bytes → Option (Bytes × Incoming) → Option (Bytes × Incoming)
prepend s none = none
prepend s (some (bs, rest)) = some (s ++ bs, rest)

-- The loop of `ReadFull` with `len` bytes to go; `none` is the result -1.
unfoldable pub read_full : ℕ → Incoming → Option (Bytes × Incoming)
read_full zero segments = some ([], segments)
read_full (suc len) [] = none
read_full (suc len) ([] ∷ segments) = none
read_full (suc len) ((b ∷ s) ∷ segments) =
    let whole = prepend (b ∷ s) (read_full (suc len - length (b ∷ s)) segments) in
    if leb (length (b ∷ s)) (suc len)
    then whole
    else some (take (suc len) (b ∷ s), drop (suc len) (b ∷ s) ∷ segments)

-- The loop of `WriteFull`: the bytes that were sent, and whether the result is 0. `send` never takes
-- more than it was given.
unfoldable pub write_full : List ℕ → Bytes → Bytes × Bool
write_full takes [] = ([], true)
write_full [] (b ∷ bs) = ([], false)
write_full (zero ∷ takes) (b ∷ bs) = ([], false)
write_full (suc n ∷ takes) (b ∷ bs) =
    let (sent, done) = write_full takes (drop (suc n) (b ∷ bs)) in
    (take (suc n) (b ∷ bs) ++ sent, done)
