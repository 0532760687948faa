-- ===== src/Ndfs/DataXceive/Wire.antt =====
-- An `int64_t` on the wire of src/ndfs/data_xceive_server.h: in the order of the network, and back.
use mini_hadoop.Common.{
  ℕ, zero, suc, ◌+◌, ◌*◌, ◌/◌, ◌%◌, ◌^◌, ◌<◌, ◌≡◌, refl, ap, ap₂, ◌∙◌, ◌++◌, arith, length, some,
}
use mini_hadoop.Common.Int.{ℤ, to_u64, of_u64, to_u64-lt, of_u64-to_u64, IsInt64}
use mini_hadoop.Common.Text.{Bytes}
use mini_hadoop.Ipc.Socket.{Incoming}
use mini_hadoop.Ipc.Socket.Stream.{Delivers, read_full-Delivers}
use mini_hadoop.Ndfs.DataXceive.{
  htonl, host_to_net64, net_to_host64, le_bytes, le_value, to_wire, receive_wire,
}

htonl-lt : (n : ℕ) → htonl n < 2 ^ 32
htonl-lt n = omega arith

htonl-htonl : (n : ℕ) → n < 2 ^ 32 → htonl (htonl n) ≡ n
htonl-htonl n h = omega arith

le_value-le_bytes : (k n : ℕ) → n < 256 ^ k → le_value (le_bytes k n) ≡ n
le_value-le_bytes zero n h = omega arith
le_value-le_bytes (suc k) n h =
    let smaller : n / 256 < 256 ^ k = omega arith in
    omega (arith, le_value-le_bytes k (n / 256) smaller)

length-le_bytes : (k n : ℕ) → length (le_bytes k n) ≡ k
length-le_bytes zero n = refl
length-le_bytes (suc k) n = ap suc (length-le_bytes k (n / 256))

halves : (a b : ℕ) → b < 2 ^ 32 → ((a * 2 ^ 32 + b) % 2 ^ 32 ≡ b) × ((a * 2 ^ 32 + b) / 2 ^ 32 ≡ a)
halves a b h = (omega arith, omega arith)

join : (v : ℕ) → v / 2 ^ 32 * 2 ^ 32 + v % 2 ^ 32 ≡ v
join v = omega arith

net_to_host64-host_to_net64 : (v : ℕ) → v < 2 ^ 64 → net_to_host64 (host_to_net64 v) ≡ v
unfolding net_to_host64 host_to_net64
net_to_host64-host_to_net64 v h =
    let hi = htonl (v / 2 ^ 32) in
    let lo = htonl (v % 2 ^ 32) in
    let (first, second) = halves lo hi (htonl-lt (v / 2 ^ 32)) in
    ap₂ (λ (a b : ℕ). htonl a * 2 ^ 32 + htonl b) first second
    ∙ ap₂ (λ (a b : ℕ). a * 2 ^ 32 + b) (htonl-htonl (v / 2 ^ 32) (omega (arith, h)))
        (htonl-htonl (v % 2 ^ 32) (omega arith))
    ∙ join v

host_to_net64-lt : (v : ℕ) → host_to_net64 v < 2 ^ 64
unfolding host_to_net64
host_to_net64-lt v = omega (arith, htonl-lt (v % 2 ^ 32), htonl-lt (v / 2 ^ 32))

-- A received `int64_t` is the one that was sent.
pub receive_wire-Delivers :
    (z : ℤ) (rest : Bytes) (segments : Incoming)
    → IsInt64 z
    → Delivers segments (to_wire z ++ rest)
    → (left : Incoming) × (receive_wire segments ≡ some (z, left)) × Delivers left rest
unfolding receive_wire to_wire
receive_wire-Delivers z rest segments hz h =
    let (left, e, h') = read_full-Delivers (to_wire z) rest segments h in
    let value : le_value (to_wire z) ≡ host_to_net64 (to_u64 z) =
      le_value-le_bytes 8 (host_to_net64 (to_u64 z)) (host_to_net64-lt (to_u64 z)) in
    let back : of_u64 (net_to_host64 (host_to_net64 (to_u64 z))) ≡ z =
      ap of_u64 (net_to_host64-host_to_net64 (to_u64 z) (to_u64-lt z)) ∙ of_u64-to_u64 z hz in
    (left, rw (receive_wire, e, value, back) refl, h')
