-- ===== src/Ndfs/DfsClient/Files/Located.antt =====
-- The reply with the blocks of a file and their DataNodes, as `ReadFile` of src/ndfs/dfs_client.h gets
-- it for a file that `WriteFile` left.
use mini_hadoop.Common.{
  ℕ, suc, ◌*◌, ◌^◌, ◌≤◌, ◌≡◌, refl, ap, ap₂, subst, List, [], ◌∷◌, ◌++◌, map, length, length-append,
  arith, All,
}
use mini_hadoop.Common.Int.{ℤ, pos, IsInt64}
use mini_hadoop.Common.Text.{Bytes}
use mini_hadoop.Io.Buffer.Fields.{Field, IsFit, fields_bytes}
use mini_hadoop.Ndfs.FsNamesystem.{FsNamesystem, generate, DataNodeInfo, datanodes_of}
use mini_hadoop.Ndfs.FsNamesystem.Client.{Allocation}
use mini_hadoop.Ndfs.FsNamesystem.Files.{located}
use mini_hadoop.Ndfs.NameNode.{
  block_fields, allocation_fields, datanode_list_fields, located_fields,
}
use mini_hadoop.Ndfs.NameNode.Server.{Draws}
use mini_hadoop.Ndfs.DfsClient.Protocol.{
  IsFitAllocation, allocation_fields-IsFit, fields_bytes-append, append-IsFit,
}
use mini_hadoop.Ndfs.DfsClient.Files.Placed.{ids}
use mini_hadoop.Ndfs.DfsClient.Files.Conditions.{IsDistinct, IsFitCluster, Drawn, contents}

pub length-ids : (pairs : List (ℤ × Bytes)) → length (ids pairs) ≡ length pairs
length-ids [] = refl
length-ids (p ∷ pairs) = ap suc (length-ids pairs)

pub length-located :
    (pairs : List (ℤ × Bytes))
    → length (map (λ (id : ℤ). generate id (pos 0)) (ids pairs)) ≡ length pairs
length-located [] = refl
length-located (p ∷ pairs) = ap suc (length-located pairs)

pub chunks_short :
    (pairs : List (ℤ × Bytes)) (limit : ℕ)
    → length (contents pairs) ≤ limit
    → All (λ p. length p.1 ≤ limit) pairs
chunks_short [] limit h = tt
chunks_short ((id, chunk) ∷ pairs) limit h = (
  omega (arith, h, length-append chunk (contents pairs)),
  chunks_short pairs limit (omega (arith, h, length-append chunk (contents pairs))),
)

pub Drawn-IsInt64 :
    (draws : Draws) (n : ℕ) (is : List ℤ) → IsDistinct draws n → Drawn draws is n → All IsInt64 is
Drawn-IsInt64 draws n [] hd h = tt
Drawn-IsInt64 draws n (i ∷ is) hd ((k, less, e), h) =
    (subst IsInt64 e (hd.fits k less), Drawn-IsInt64 draws n is hd h)

module _ (path : Bytes) (t : DataNodeInfo) (dns : List DataNodeInfo)
    (fit : IsFitCluster path t dns) where
  abbrev pub allocation : ℤ → Allocation
  allocation id = (generate id (pos 0), t ∷ dns)

  -- The reply for blocks that all have the targets.
  abbrev pub allocations : List ℤ → List Field
  allocations [] = []
  allocations (i ∷ is) = allocation_fields (allocation i) ++ allocations is

  pub located_fields-allocations :
      (s : FsNamesystem) (is : List ℤ)
      → All (λ i. datanodes_of i s ≡ t ∷ dns) is
      → located_fields (located s is).0 (located s is).1 ≡ allocations is
  located_fields-allocations s [] h = refl
  located_fields-allocations s (i ∷ is) (hi, h) =
      ap₂
        (λ (l : List DataNodeInfo) (fs : List Field).
          block_fields (generate i (pos 0)) ++ (datanode_list_fields l ++ fs))
        hi (located_fields-allocations s is h)

  pub allocation-IsFit : (i : ℤ) → IsInt64 i → IsFitAllocation (allocation i)
  allocation-IsFit i h = ((h, omega arith, omega arith), fit.nodes, fit.few)

  pub allocations-IsFit : (is : List ℤ) → All IsInt64 is → All IsFit (allocations is)
  allocations-IsFit [] h = tt
  allocations-IsFit (i ∷ is) (hi, h) =
      append-IsFit (allocation_fields (allocation i)) (allocations is)
        (allocation_fields-IsFit (allocation i) (allocation-IsFit i hi)) (allocations-IsFit is h)

  pub allocations_short :
      (is : List ℤ) → length (fields_bytes (allocations is)) ≤ length is * 2 ^ 32
  allocations_short [] = omega arith
  allocations_short (i ∷ is) =
      let e = ap length (fields_bytes-append (allocation_fields (allocation i)) (allocations is)) in
      omega (
        arith,
        e,
        fit.small,
        allocations_short is,
        length-append (fields_bytes (allocation_fields (allocation i)))
            (fields_bytes (allocations is)),
      )
