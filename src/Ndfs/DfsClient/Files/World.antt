-- ===== src/Ndfs/DfsClient/Files/World.antt =====
-- A cluster made of src/ndfs/name_node.h and src/ndfs/data_xceive_server.h: the NameNode, and the
-- block files of each DataNode, found by host and port. A call of `send` takes up to `burst` bytes.
-- `block_path` is `BlockPath`, and every block file can be created.
use mini_hadoop.Common.{
  zero, suc, take, drop, ap₂, suc, take, drop, ap₂, ◌↔◌, ℕ, ◌≤◌, ◌≡◌, refl, ap, Bool, true, ◌&&◌,
  if◌then◌else◌, [], ◌∷◌, append-nil, Option, none, some, length, arith, ok, throws,
}
use mini_hadoop.Common.Int.{ℤ, pos, eqb_ℤ, eqb_ℤ_iff}
use mini_hadoop.Common.Text.{Bytes, codes, str_eq, str_eq_iff}
use mini_hadoop.Common.Assoc.{Map, lookup, insert, erase}
use mini_hadoop.Status.{Status}
use mini_hadoop.Ipc.Socket.{Incoming, write_full}
use mini_hadoop.Ipc.Rpc.{Ending, dispatch, refused}
use mini_hadoop.Ipc.Rpc.Client.{request}
use mini_hadoop.Ndfs.FsNamesystem.{DataNodeInfo}
use mini_hadoop.Ndfs.NameNode.Server.{Served, Draws, handlers}
use mini_hadoop.Ndfs.BlockStorage.{BlockStorage}
use mini_hadoop.Ndfs.DataXceive.{handle_connection}
use mini_hadoop.Ndfs.DfsClient.Files.{Cluster}

abbrev pub Address : Type 0
Address = Bytes × ℤ

abbrev pub address_eq : Address → Address → Bool
address_eq (host, port) (host', port') = str_eq host host' && eqb_ℤ port port'

abbrev pub address : DataNodeInfo → Address
address dn = (dn.host, dn.port)

-- A NameNode that was terminated, or closed the connection of the client, is `none`; a DataNode that
-- was terminated is not in the map.
pub record World : Type 0 where
  pub name_node : Option Served
  pub nodes : Map Address BlockStorage

-- The bytes that arrive, in one segment.
abbrev pub segment : Bytes → Incoming
segment [] = []
segment (b ∷ bs) = (b ∷ bs) ∷ []

module _ (draws : Draws) where
  -- `CallRaw` on an open connection that delivers what either side sends. The server closes it for a
  -- message of more than 64 MiB. A reply is taken to be below 4 GiB: its length is sent in 32 bits.
  unfoldable pub call_name_node : ℕ → Bytes → World → (Status × Bytes) × World
  call_name_node op body w = elim w.name_node [
    | none ↦ ((Status.io_error (codes "send failed"), []), w)
    | some s ↦
        let lost : (Status × Bytes) × World =
          ((Status.io_error (codes "recv failed"), []), record w { name_node = none }) in
        let answered : (Status × Bytes) × World =
          elim (dispatch (handlers draws) s (request (pos op) body)) [
            | ok (s', resp) ↦ ((Status.ok, resp), record w { name_node = some s' })
            | throws e ↦ lost
          ] in
        if refused (length (request (pos op) body)) then lost else answered
  ]

module _ (block_path : ℤ → Bytes) (burst : ℕ) where
  abbrev pub after : Address → Ending BlockStorage → World → World
  after a (Ending.closed storage) w = record w { nodes = insert address_eq a storage w.nodes }
  after a (Ending.terminated e) w = record w { nodes = erase address_eq a w.nodes }

  unfoldable pub contact_node : DataNodeInfo → Bytes → World → Option (Incoming × World)
  contact_node dn message w = elim (lookup address_eq (address dn) w.nodes) [
    | none ↦ none
    | some storage ↦
        let (sent, end) =
          handle_connection block_path true storage (burst ∷ []) (burst ∷ []) (segment message) in
        some (segment sent, after (address dn) end w)
  ]

abbrev pub world : Draws → (ℤ → Bytes) → ℕ → Cluster World
world draws block_path burst = record {
  call = call_name_node draws;
  contact = contact_node block_path burst;
}

take_all : (n : ℕ) (bs : Bytes) → length bs ≤ n → take n bs ≡ bs
take_all zero [] h = refl
take_all (suc n) [] h = refl
take_all zero (b ∷ bs) h = absurd (omega (arith, h))
take_all (suc n) (b ∷ bs) h = ap (λ (x : Bytes). b ∷ x) (take_all n bs (omega (arith, h)))

drop_all : (n : ℕ) (bs : Bytes) → length bs ≤ n → drop n bs ≡ []
drop_all zero [] h = refl
drop_all (suc n) [] h = refl
drop_all zero (b ∷ bs) h = absurd (omega (arith, h))
drop_all (suc n) (b ∷ bs) h = drop_all n bs (omega (arith, h))

pub write_full_enough : (n : ℕ) (bs : Bytes) → length bs ≤ n → write_full (n ∷ []) bs ≡ (bs, true)
unfolding write_full
write_full_enough n [] h = refl
write_full_enough zero (b ∷ bs) h = absurd (omega (arith, h))
write_full_enough (suc n) (b ∷ bs) h =
    let all : take n bs ≡ bs = take_all n bs (omega (arith, h)) in
    let none_left : drop n bs ≡ [] = drop_all n bs (omega (arith, h)) in
    rw (write_full, none_left, all) (ap (λ (x : Bytes). (x, true)) (append-nil (b ∷ bs)))

pub address_eq_iff : (a b : Address) → (address_eq a b ≡ true) ↔ (a ≡ b)
address_eq_iff (h, p) (h', p') = (
  λ e.
      let same_host : h ≡ h' = ground (arith, str_eq_iff h h') in
      let same_port : p ≡ p' = ground (arith, eqb_ℤ_iff p p') in
      ap₂ (λ (a : Bytes) (b : ℤ). (a, b)) same_host same_port,
  λ e.
      let same_host : h ≡ h' = ap (λ (a : Address). a.0) e in
      let same_port : p ≡ p' = ap (λ (a : Address). a.1) e in
      rw ((str_eq_iff h h').1 same_host, (eqb_ℤ_iff p p').1 same_port) refl,
)
