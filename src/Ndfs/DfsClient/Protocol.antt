-- ===== src/Ndfs/DfsClient/Protocol.antt =====
-- The replies of src/ndfs/name_node.h, as src/ndfs/dfs_client.h reads them.
use mini_hadoop.Common.{
  ◌<◌, ◌^◌, ◌≡◌, refl, sym, ap, subst, ◌∙◌, Bool, List, [], ◌∷◌, ◌++◌, append_assoc, length, All,
  ok,
}
use mini_hadoop.Common.Int.{ℤ, IsInt32, IsInt64, wrap32_of_lt}
use mini_hadoop.Common.Text.{Bytes}
use mini_hadoop.Io.Buffer.{reset, read_int, read_long, read_bool, read_string}
use mini_hadoop.Io.Buffer.Cursor.{Reads, >>=-Reads, map-Reads, return-Reads}
use mini_hadoop.Io.Buffer.RoundTrip.{
  read_int-Reads, read_long-Reads, read_bool-Reads, read_string-Reads, size-Reads,
}
use mini_hadoop.Io.Buffer.Fields.{
  Field, IsFit, field_bytes, fields_bytes, write_fields, read_message,
}
use mini_hadoop.Ndfs.FsNamesystem.{FsNamesystem, Block, DataNodeInfo}
use mini_hadoop.Ndfs.FsNamesystem.Client.{Allocation, start_file}
use mini_hadoop.Ndfs.NameNode.{
  block_fields, datanode_fields, datanodes_fields, datanode_list_fields, allocation_fields,
  handle_start_file,
}
use mini_hadoop.Ndfs.DfsClient.{
  read_block, read_datanode_info, read_datanodes, read_datanode_info_list, read_allocation,
  start_file_request,
}

abbrev pub IsFitBlock : Block → Type 0
IsFitBlock b = IsInt64 b.block_id × IsInt64 b.num_bytes × IsInt64 b.generation_stamp

abbrev pub IsFitNode : DataNodeInfo → Type 0
IsFitNode dn =
    (length dn.dn_name < 2 ^ 31)
    × (length dn.host < 2 ^ 31)
    × IsInt32 dn.port
    × IsInt64 dn.capacity
    × IsInt64 dn.remaining
    × IsInt64 dn.last_update

-- The values fit their C++ types, and the strings and the list are below 2 ^ 31.
abbrev pub IsFitAllocation : Allocation → Type 0
IsFitAllocation (b, dns) = IsFitBlock b × All IsFitNode dns × (length dns < 2 ^ 31)

pub fields_bytes-append :
    (xs ys : List Field) → fields_bytes (xs ++ ys) ≡ fields_bytes xs ++ fields_bytes ys
fields_bytes-append [] ys = refl
fields_bytes-append (x ∷ xs) ys =
    ap (λ (bs : Bytes). field_bytes x ++ bs) (fields_bytes-append xs ys)
    ∙ sym (append_assoc (field_bytes x) (fields_bytes xs) (fields_bytes ys))

pub append-IsFit : (xs ys : List Field) → All IsFit xs → All IsFit ys → All IsFit (xs ++ ys)
append-IsFit [] ys hx hy = hy
append-IsFit (x ∷ xs) ys (h, hx) hy = (h, append-IsFit xs ys hx hy)

datanode_fields-IsFit : (dn : DataNodeInfo) → IsFitNode dn → All IsFit (datanode_fields dn)
datanode_fields-IsFit dn (hn, hh, hp, hc, hr, hu) = (hn, (hh, (hp, (hc, (hr, (hu, tt))))))

datanodes_fields-IsFit :
    (dns : List DataNodeInfo) → All IsFitNode dns → All IsFit (datanodes_fields dns)
datanodes_fields-IsFit [] h = tt
datanodes_fields-IsFit (dn ∷ dns) (hd, h) =
    append-IsFit (datanode_fields dn) (datanodes_fields dns) (datanode_fields-IsFit dn hd)
      (datanodes_fields-IsFit dns h)

pub allocation_fields-IsFit : (a : Allocation) → IsFitAllocation a → All IsFit (allocation_fields a)
allocation_fields-IsFit (b, dns) ((hi, hb, hs), hd, hl) = (
  hi,
  (
    hb,
    (hs, (subst IsInt32 (sym (wrap32_of_lt (length dns) hl)) hl, datanodes_fields-IsFit dns hd)),
  ),
)

pub read_block-Reads :
    (b : Block) → IsFitBlock b → Reads read_block b (fields_bytes (block_fields b))
read_block-Reads b (hi, hb, hs) = >>=-Reads read_long _ (read_long-Reads b.block_id hi) (
    >>=-Reads read_long _ (read_long-Reads b.num_bytes hb)
      (>>=-Reads read_long _ (read_long-Reads b.generation_stamp hs) (return-Reads b)))

read_datanode_info-Reads :
    (dn : DataNodeInfo)
    → IsFitNode dn
    → Reads read_datanode_info dn (fields_bytes (datanode_fields dn))
read_datanode_info-Reads dn (hn, hh, hp, hc, hr, hu) =
    >>=-Reads read_string _ (read_string-Reads dn.dn_name hn) (
      >>=-Reads read_string _ (read_string-Reads dn.host hh) (
        >>=-Reads read_int _ (read_int-Reads dn.port hp) (
          >>=-Reads read_long _ (read_long-Reads dn.capacity hc) (
            >>=-Reads read_long _ (read_long-Reads dn.remaining hr)
              (>>=-Reads read_long _ (read_long-Reads dn.last_update hu) (return-Reads dn))))))

read_datanodes-Reads :
    (dns : List DataNodeInfo)
    → All IsFitNode dns
    → Reads (read_datanodes (length dns)) dns (fields_bytes (datanodes_fields dns))
read_datanodes-Reads [] h = return-Reads []
read_datanodes-Reads (dn ∷ dns) (hd, h) =
    subst (Reads (read_datanodes (length (dn ∷ dns))) (dn ∷ dns))
      (sym (fields_bytes-append (datanode_fields dn) (datanodes_fields dns)))
      (>>=-Reads read_datanode_info _ (read_datanode_info-Reads dn hd)
        (map-Reads (read_datanodes (length dns)) (◌∷◌ dn) (read_datanodes-Reads dns h)))

pub read_datanode_info_list-Reads :
    (dns : List DataNodeInfo)
    → All IsFitNode dns
    → length dns < 2 ^ 31
    → Reads read_datanode_info_list dns (fields_bytes (datanode_list_fields dns))
unfolding read_datanode_info_list
read_datanode_info_list-Reads dns h hl =
    >>=-Reads read_int _ (size-Reads (length dns) hl) (read_datanodes-Reads dns h)

pub read_allocation-Reads :
    (a : Allocation)
    → IsFitAllocation a
    → Reads read_allocation a (fields_bytes (allocation_fields a))
unfolding read_allocation
read_allocation-Reads (b, dns) (hb, hd, hl) =
    subst (Reads read_allocation (b, dns))
      (sym (fields_bytes-append (block_fields b) (datanode_list_fields dns)))
      (>>=-Reads read_block _ (read_block-Reads b hb) (
        map-Reads read_datanode_info_list (λ dns. (b, dns))
          (read_datanode_info_list-Reads dns hd hl)))

-- If the values fit their C++ types, the request that the client writes for a new file runs `StartFile` on its path, and the client
-- reads from the reply the block and the targets that `StartFile` returned.
pub handle_start_file_lem :
    (id : ℤ) (path : Bytes) (overwrite : Bool) (s : FsNamesystem)
    → length path < 2 ^ 31
    → length (write_fields [] (start_file_request path overwrite)) < 2 ^ 63
    → IsFitAllocation (start_file id path overwrite s).1
    → length (write_fields [] (allocation_fields (start_file id path overwrite s).1)) < 2 ^ 63
    → let request = write_fields [] (start_file_request path overwrite) in
      let (s', result) = start_file id path overwrite s in
      let resp = write_fields [] (allocation_fields result) in
      (handle_start_file id s (reset request)
        ≡ ok ((s', resp), record { contents = request; position = length request }))
      × (read_allocation (reset resp)
          ≡ ok (result, record { contents = resp; position = length resp }))
unfolding handle_start_file
handle_start_file_lem id path overwrite s hp small fit small' = (
  read_message (handle_start_file id s) _ (start_file_request path overwrite) (hp, (tt, tt)) small
      (>>=-Reads read_string _ (read_string-Reads path hp)
        (map-Reads read_bool _ (read_bool-Reads overwrite))),
  read_message read_allocation _ (allocation_fields (start_file id path overwrite s).1)
      (allocation_fields-IsFit (start_file id path overwrite s).1 fit) small'
      (read_allocation-Reads (start_file id path overwrite s).1 fit),
)
