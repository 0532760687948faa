-- ===== src/Ndfs/DfsClient/Files/Conditions.antt =====
-- What a cluster has to be like for a file of src/ndfs/dfs_client.h, and the contents of a file.
use mini_hadoop.Common.{
  ℕ, suc, ◌+◌, ◌*◌, ◌^◌, ◌≤◌, ◌<◌, ◌≡◌, refl, sym, ap, ◌∙◌, true, false, List, [], ◌∷◌, ◌++◌,
  append-nil, append_assoc, length, length-append, take, drop, take-append-drop, arith, All,
}
use mini_hadoop.Common.Int.{ℤ, IsInt64, eqb_ℤ}
use mini_hadoop.Common.Text.{Bytes, str_eq_refl}
use mini_hadoop.Io.Buffer.Fields.{fields_bytes}
use mini_hadoop.Ipc.Rpc.{max_message}
use mini_hadoop.Ndfs.FsNamesystem.{DataNodeInfo}
use mini_hadoop.Ndfs.FsNamesystem.DataNodes.{has_datanode}
use mini_hadoop.Ndfs.FsNamesystem.Files.{Fresh}
use mini_hadoop.Ndfs.NameNode.{datanode_list_fields}
use mini_hadoop.Ndfs.NameNode.Server.{Draws}
use mini_hadoop.Ndfs.DfsClient.Protocol.{IsFitNode}
use mini_hadoop.Ndfs.DfsClient.Files.Placed.{ids}

-- The first `n` draws are 64-bit integers, and no two are equal.
pub record IsDistinct (draws : Draws) (n : ℕ) : Type 0 where
  pub fits : (i : ℕ) → i < n → IsInt64 (draws i).0
  pub distinct : (i j : ℕ) → i < j → j < n → eqb_ℤ (draws j).0 (draws i).0 ≡ false

-- The ids were drawn for the first `r` requests.
abbrev pub Drawn : Draws → List ℤ → ℕ → Type 0
Drawn draws is r = All (λ i. (k : ℕ) × (k < r) × ((draws k).0 ≡ i)) is

pub Drawn-Fresh :
    (draws : Draws) (n r : ℕ) (is : List ℤ)
    → IsDistinct draws n
    → r < n
    → Drawn draws is r
    → Fresh (draws r).0 is
Drawn-Fresh draws n r [] hd hr h = tt
Drawn-Fresh draws n r (i ∷ is) hd hr ((k, less, e), h) =
    (rw (← e) (hd.distinct k r less hr), Drawn-Fresh draws n r is hd hr h)

pub Drawn-weaken :
    (draws : Draws) (r n : ℕ) (is : List ℤ) → r ≤ n → Drawn draws is r → Drawn draws is n
Drawn-weaken draws r n [] less h = tt
Drawn-weaken draws r n (i ∷ is) less ((k, lk, e), h) =
    ((k, omega (arith, lk, less), e), Drawn-weaken draws r n is less h)

pub Drawn-later :
    (draws : Draws) (r r' : ℕ) (pairs : List (ℤ × Bytes)) (chunk : Bytes)
    → r < r'
    → Drawn draws (ids pairs) r
    → Drawn draws (ids (pairs ++ (((draws r).0, chunk) ∷ []))) r'
Drawn-later draws r r' [] chunk less h = ((r, less, refl), tt)
Drawn-later draws r r' (p ∷ pairs) chunk less ((k, lk, e), h) =
    ((k, omega (arith, lk, less), e), Drawn-later draws r r' pairs chunk less h)

-- The bytes of a file whose blocks have these.
abbrev pub contents : List (ℤ × Bytes) → Bytes
contents [] = []
contents ((id, chunk) ∷ pairs) = chunk ++ contents pairs

pub length-take_le :
    (n : ℕ) (bs : Bytes) (limit : ℕ) → length bs < limit → length (take n bs) < limit
length-take_le n bs limit h =
    let e = ap length (take-append-drop n bs) in
    omega (arith, e, h, length-append (take n bs) (drop n bs))

pub contents_snoc :
    (pairs : List (ℤ × Bytes)) (id : ℤ) (chunk : Bytes)
    → contents (pairs ++ ((id, chunk) ∷ [])) ≡ contents pairs ++ chunk
contents_snoc [] id chunk = append-nil chunk
contents_snoc ((i, c) ∷ pairs) id chunk =
    ap (λ (bs : Bytes). c ++ bs) (contents_snoc pairs id chunk)
    ∙ sym (append_assoc c (contents pairs) chunk)

pub suc-mul : (m n : ℕ) → suc m * n ≡ n + m * n
suc-mul m n = omega arith

pub has_datanode-append :
    (front : List DataNodeInfo) (dn : DataNodeInfo) (back : List DataNodeInfo)
    → has_datanode dn.dn_name (front ++ (dn ∷ back)) ≡ true
unfolding has_datanode
has_datanode-append [] dn back = rw (str_eq_refl dn.dn_name) refl
has_datanode-append (d ∷ front) dn back = ground (arith, has_datanode-append front dn back)

-- What the cluster has to be like for a file: the values fit their C++ types, and the messages their
-- limits.
pub record IsFitCluster (path : Bytes) (t : DataNodeInfo) (dns : List DataNodeInfo) : Type 0 where
  pub nodes : All IsFitNode (t ∷ dns)
  pub names : All (λ dn. length dn.dn_name + 64 ≤ max_message) (t ∷ dns)
  pub few : length (t ∷ dns) < 2 ^ 31
  pub small : length (fields_bytes (datanode_list_fields (t ∷ dns))) < 2 ^ 31
  pub short : length path + 16 ≤ max_message
