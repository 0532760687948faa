-- ===== src/Io/Buffer/Examples.antt =====
-- Concrete messages of src/io/buffer.h.
use mini_hadoop.Common.{
  ◌≡◌, ◌≤◌, ◌<◌, ◌-◌, ◌^◌, refl, true, List, [], ◌∷◌, map, length, take, arith, All, ok, throws,
  past_end,
}
use mini_hadoop.Common.Int.{pos, negsuc, to_u32, of_u32}
use mini_hadoop.Common.Text.{codes}
use mini_hadoop.Io.Buffer.{
  InputBuffer, reset, skip, write_bool, write_int, write_long, write_string, write_raw, write_byte,
  read_int, read_string, container_size, read_raw,
}
use mini_hadoop.Io.Buffer.Fields.{
  Field, bool, int, long, string, kind, string_kind, IsFit, write_fields, read_fields,
  read_fields-write_fields,
}
use mini_hadoop.Io.Buffer.Truncation.{read_fields_truncated}
use mini_hadoop.Io.Buffer.Bounds.{read_fields_bounds, skip_backwards}

abbrev message : List Field
message = int (negsuc 4) ∷ string (codes "dn1") ∷ long (pos 70000) ∷ bool true ∷ []

message-IsFit : All IsFit message
message-IsFit = (omega arith, (omega arith, (omega arith, (tt, tt))))

message_small : length (write_fields [] message) < 2 ^ 63
unfolding write_int write_string write_long write_bool write_raw write_byte to_u32
message_small = omega arith

read_fields-write_fields_example :
    read_fields (map kind message) (reset (write_fields [] message))
    ≡ ok (
      message,
      record { contents = write_fields [] message; position = length (write_fields [] message) },
    )
read_fields-write_fields_example = read_fields-write_fields message message-IsFit message_small

read_fields_truncated_example :
    read_fields (map kind message) (reset (take 6 (write_fields [] message))) ≡ throws past_end
unfolding write_int write_string write_long write_bool write_raw write_byte to_u32
read_fields_truncated_example =
    read_fields_truncated message 6 message-IsFit message_small (omega arith)

-- A length and two bytes.
abbrev input : InputBuffer
input = record { contents = 0 ∷ 0 ∷ 0 ∷ 1 ∷ 104 ∷ 105 ∷ []; position = 0 }

abbrev rest : InputBuffer
rest = record { contents = 0 ∷ 0 ∷ 0 ∷ 1 ∷ 104 ∷ 105 ∷ []; position = 5 }

read_fields_bounds_example :
    (rest.contents ≡ input.contents)
    × (input.position ≤ rest.position)
    × (rest.position ≤ length input.contents)
unfolding read_string read_int container_size read_raw of_u32
read_fields_bounds_example =
    read_fields_bounds (string_kind ∷ []) input rest (string (104 ∷ []) ∷ []) (omega arith)
      (omega arith) refl

skip_backwards_example : skip (2 ^ 64 - 2) rest ≡ ok (tt, record rest { position = 3 })
skip_backwards_example =
    skip_backwards rest 2 (omega arith) (omega arith) (omega arith) (omega arith)
