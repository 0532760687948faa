-- ===== src/Io/Writables/Writable.antt =====
-- src/io/writable.h: what a class of src/io/writable_types.h has as a `Writable`, and what is relied on
-- where values of any such class are stored.
use mini_hadoop.Common.{◌^◌, ◌<◌, ◌≡◌, sym, subst, Bool, [], ◌++◌, append-nil, length, ok}
use mini_hadoop.Common.Int.{ℤ, IsInt32, IsInt64}
use mini_hadoop.Common.Text.{Bytes}
use mini_hadoop.Io.Buffer.{OutputBuffer, Reader, reset}
use mini_hadoop.Io.Buffer.Cursor.{Reads, Reads-reset, return-Reads}
use mini_hadoop.Io.Buffer.Fields.{int, long, bool, bytes, field_bytes, write_field-append}
use mini_hadoop.Io.Buffer.RoundTrip.{
  read_int-Reads, read_long-Reads, read_bool-Reads, read_bytes-Reads,
}
use mini_hadoop.Io.Writables.IntWritable
use mini_hadoop.Io.Writables.LongWritable
use mini_hadoop.Io.Writables.BooleanWritable
use mini_hadoop.Io.Writables.BytesWritable
use mini_hadoop.Io.Writables.NullWritable

-- `Write` and `ReadFields` of a class with values in `A`.
pub record Writable (A : Type 0) : Type 0 where
  pub write : OutputBuffer → A → OutputBuffer
  pub read_fields : Reader A

-- The values that `IsKept` holds of are written behind what is there, and read back.
pub record IsWritable {A : Type 0} (w : Writable A) (IsKept : A → Type 0) : Type 0 where
  pub encoded : A → Bytes
  pub written : (out : OutputBuffer) (a : A) → IsKept a → w.write out a ≡ out ++ encoded a
  pub read : (a : A) → IsKept a → Reads w.read_fields a (encoded a)

abbrev pub int_writable : Writable ℤ
int_writable = record { write = IntWritable.write; read_fields = IntWritable.read_fields }

abbrev pub long_writable : Writable ℤ
long_writable = record { write = LongWritable.write; read_fields = LongWritable.read_fields }

abbrev pub boolean_writable : Writable Bool
boolean_writable = record {
  write = BooleanWritable.write;
  read_fields = BooleanWritable.read_fields;
}

abbrev pub bytes_writable : Writable Bytes
bytes_writable = record { write = BytesWritable.write; read_fields = BytesWritable.read_fields }

abbrev pub null_writable : Writable (Unit {0})
null_writable = record { write = NullWritable.write; read_fields = NullWritable.read_fields }

pub int_writable-IsWritable : IsWritable int_writable IsInt32
unfolding IntWritable.write IntWritable.read_fields
int_writable-IsWritable = record {
  encoded = λ a. field_bytes (int a);
  written = λ out a h. write_field-append out (int a) h;
  read = read_int-Reads;
}

pub long_writable-IsWritable : IsWritable long_writable IsInt64
unfolding LongWritable.write LongWritable.read_fields
long_writable-IsWritable = record {
  encoded = λ a. field_bytes (long a);
  written = λ out a h. write_field-append out (long a) h;
  read = read_long-Reads;
}

pub boolean_writable-IsWritable : IsWritable boolean_writable (λ _. Unit)
unfolding BooleanWritable.write BooleanWritable.read_fields
boolean_writable-IsWritable = record {
  encoded = λ a. field_bytes (bool a);
  written = λ out a h. write_field-append out (bool a) h;
  read = λ a h. read_bool-Reads a;
}

pub bytes_writable-IsWritable : IsWritable bytes_writable (λ a. length a < 2 ^ 31)
unfolding BytesWritable.write BytesWritable.read_fields
bytes_writable-IsWritable = record {
  encoded = λ a. field_bytes (bytes a);
  written = λ out a h. write_field-append out (bytes a) h;
  read = read_bytes-Reads;
}

pub null_writable-IsWritable : IsWritable null_writable (λ _. Unit)
unfolding NullWritable.write NullWritable.read_fields
null_writable-IsWritable = record {
  encoded = λ a. [];
  written = λ out a h. sym (append-nil out);
  read = λ a h. return-Reads tt;
}

whole-Reads :
    {A : Type 0} (m : Reader A) (a : A) (bs : Bytes)
    → Reads m a bs
    → length bs < 2 ^ 63
    → m (reset bs) ≡ ok (a, record { contents = bs; position = length bs })
whole-Reads m a bs h small =
    subst
      (λ (x : Bytes).
        m (record { contents = x; position = 0 })
        ≡ ok (a, record { contents = x; position = length bs }))
      (append-nil bs)
      (Reads-reset m a bs [] h
        (subst (λ (x : Bytes). length x < 2 ^ 63) (sym (append-nil bs)) small))

-- A value that was written to an empty buffer is read from it.
pub read_fields-write :
    {A : Type 0} {IsKept : A → Type 0}
    → (w : Writable A) (lawful : IsWritable w IsKept) (a : A) → IsKept a
    → length (w.write [] a) < 2 ^ 63
    → w.read_fields (reset (w.write [] a))
      ≡ ok (a, record { contents = w.write [] a; position = length (w.write [] a) })
read_fields-write w lawful a h small =
    let e : w.write [] a ≡ lawful.encoded a = lawful.written [] a h in
    rw e (whole-Reads w.read_fields a (lawful.encoded a) (lawful.read a h) (rw (← e) small))
