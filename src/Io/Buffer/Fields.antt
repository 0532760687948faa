-- ===== src/Io/Buffer/Fields.antt =====
-- A message as the code writes one: a sequence of calls of the `Write` methods, and the reader
-- that makes the matching calls.
use mathlib.Core.Path.{subst}
use mini_hadoop.Common.{
  ℕ, ◌^◌, ◌<◌, ◌≡◌, refl, sym, ap, ◌∙◌, Bool, List, [], ◌∷◌, ◌++◌, length, append_assoc, append-nil,
  map, arith, ok, if◌then◌else◌, ◌%◌, ◌+◌, All,
}
use mini_hadoop.Common.Int.{ℤ, to_u32, IsInt32, IsInt64}
use mini_hadoop.Common.Text.{Bytes}
use mini_hadoop.Io.Buffer.{
  OutputBuffer, InputBuffer, Reader, ◌>>=◌, return, reset, be16, be32, write_byte, write_bool,
  write_short, write_int, write_long, write_bytes, write_string, read_byte, read_bool,
  read_unsigned_short, read_int, read_long, read_bytes, read_string,
}
use mini_hadoop.Io.Buffer.Cursor.{Reads, At, At-reset, map-Reads, >>=-Reads, return-Reads}
use mini_hadoop.Io.Buffer.RoundTrip.{
  long_bytes, sized, read_byte-Reads, read_bool-Reads, read_unsigned_short-Reads, read_int-Reads,
  read_long-Reads, read_bytes-Reads, read_string-Reads,
}

-- One written value; `short` holds the 16 bits.
pub data Field : Type 0 where
  byte : ℕ → Field
  bool : Bool → Field
  short : ℕ → Field
  int : ℤ → Field
  long : ℤ → Field
  bytes : Bytes → Field
  string : Bytes → Field

pub data Kind : Type 0 where
  byte_kind bool_kind short_kind int_kind long_kind bytes_kind string_kind : Kind

abbrev pub kind : Field → Kind
kind (byte _) = byte_kind
kind (bool _) = bool_kind
kind (short _) = short_kind
kind (int _) = int_kind
kind (long _) = long_kind
kind (bytes _) = bytes_kind
kind (string _) = string_kind

abbrev pub write_field : OutputBuffer → Field → OutputBuffer
write_field out (byte v) = write_byte out v
write_field out (bool v) = write_bool out v
write_field out (short v) = write_short out v
write_field out (int v) = write_int out v
write_field out (long v) = write_long out v
write_field out (bytes v) = write_bytes out v
write_field out (string v) = write_string out v

abbrev pub read_field : Kind → Reader Field
read_field byte_kind = do v ← read_byte; return (byte v)
read_field bool_kind = do v ← read_bool; return (bool v)
read_field short_kind = do v ← read_unsigned_short; return (short v)
read_field int_kind = do v ← read_int; return (int v)
read_field long_kind = do v ← read_long; return (long v)
read_field bytes_kind = do v ← read_bytes; return (bytes v)
read_field string_kind = do v ← read_string; return (string v)

abbrev pub write_fields : OutputBuffer → List Field → OutputBuffer
write_fields out [] = out
write_fields out (f ∷ fs) = write_fields (write_field out f) fs

abbrev pub read_fields : List Kind → Reader (List Field)
read_fields [] = return []
read_fields (k ∷ ks) = do f ← read_field k; fs ← read_fields ks; return (f ∷ fs)

-- The value is one of the C++ type, and a container is below 2 GiB.
abbrev pub IsFit : Field → Type 0
IsFit (byte v) = v < 256
IsFit (bool v) = Unit
IsFit (short v) = v < 2 ^ 16
IsFit (int v) = IsInt32 v
IsFit (long v) = IsInt64 v
IsFit (bytes v) = length v < 2 ^ 31
IsFit (string v) = length v < 2 ^ 31

abbrev pub field_bytes : Field → Bytes
field_bytes (byte v) = v ∷ []
field_bytes (bool v) = (if v then 1 else 0) ∷ []
field_bytes (short v) = be16 v
field_bytes (int v) = be32 (to_u32 v)
field_bytes (long v) = long_bytes v
field_bytes (bytes v) = sized v
field_bytes (string v) = sized v

abbrev pub fields_bytes : List Field → Bytes
fields_bytes [] = []
fields_bytes (f ∷ fs) = field_bytes f ++ fields_bytes fs

pub write_field-append :
    (out : OutputBuffer) (f : Field) → IsFit f → write_field out f ≡ out ++ field_bytes f
unfolding write_byte write_bool write_short write_int write_long write_bytes write_string
write_field-append out (byte v) h = refl
write_field-append out (bool v) h = refl
write_field-append out (short v) h =
    let e : v % 2 ^ 16 ≡ v = omega arith in ap (λ (n : ℕ). out ++ be16 n) e
write_field-append out (int v) h = refl
write_field-append out (long v) h = append_assoc out _ _
write_field-append out (bytes v) h = append_assoc out _ v
write_field-append out (string v) h = append_assoc out _ v

pub write_fields-append :
    (out : OutputBuffer) (fs : List Field)
    → All IsFit fs
    → write_fields out fs ≡ out ++ fields_bytes fs
write_fields-append out [] h = sym (append-nil out)
write_fields-append out (f ∷ fs) (hf, hfs) =
    write_fields-append (write_field out f) fs hfs ∙ rw (write_field-append out f hf, append_assoc)

pub read_field-Reads : (f : Field) → IsFit f → Reads (read_field (kind f)) f (field_bytes f)
read_field-Reads (byte v) h = map-Reads read_byte byte (read_byte-Reads v)
read_field-Reads (bool v) h = map-Reads read_bool bool (read_bool-Reads v)
read_field-Reads (short v) h = map-Reads read_unsigned_short short (read_unsigned_short-Reads v h)
read_field-Reads (int v) h = map-Reads read_int int (read_int-Reads v h)
read_field-Reads (long v) h = map-Reads read_long long (read_long-Reads v h)
read_field-Reads (bytes v) h = map-Reads read_bytes bytes (read_bytes-Reads v h)
read_field-Reads (string v) h = map-Reads read_string string (read_string-Reads v h)

pub read_fields-Reads :
    (fs : List Field) → All IsFit fs → Reads (read_fields (map kind fs)) fs (fields_bytes fs)
read_fields-Reads [] h = return-Reads []
read_fields-Reads (f ∷ fs) (hf, hfs) =
    >>=-Reads (read_field (kind f)) _ (read_field-Reads f hf)
      (map-Reads (read_fields (map kind fs)) (◌∷◌ f) (read_fields-Reads fs hfs))

-- A reader of the bytes of some fields reads them where they were written.
pub read_message :
    {A : Type 0} (m : Reader A) (v : A) (fs : List Field)
    → All IsFit fs
    → length (write_fields [] fs) < 2 ^ 63
    → Reads m v (fields_bytes fs)
    → m (reset (write_fields [] fs))
      ≡ ok (v, record { contents = write_fields [] fs; position = length (write_fields [] fs) })
read_message m v fs h small reads =
    let e = write_fields-append [] fs h in
    let small' : length (fields_bytes fs) < 2 ^ 63 =
      subst (λ (bs : Bytes). length bs < 2 ^ 63) e small in
    let at : At (reset (fields_bytes fs)) (fields_bytes fs ++ []) =
      rw append-nil (At-reset (fields_bytes fs) small') in
    let end : (0 + length (fields_bytes fs)) % 2 ^ 64 ≡ length (fields_bytes fs) = omega arith in
    rw e (
      reads.run (reset (fields_bytes fs)) [] at
      ∙ ap
          (λ (p : ℕ).
            let r : InputBuffer = record { contents = fields_bytes fs; position = p } in ok (v, r))
          end)

-- Any sequence of written values in range is read back in order by the matching reads, which end
-- at the end of the buffer.
pub read_fields-write_fields :
    (fs : List Field)
    → All IsFit fs
    → length (write_fields [] fs) < 2 ^ 63
    → read_fields (map kind fs) (reset (write_fields [] fs))
      ≡ ok (fs, record { contents = write_fields [] fs; position = length (write_fields [] fs) })
read_fields-write_fields fs h small =
    read_message (read_fields (map kind fs)) fs fs h small (read_fields-Reads fs h)
