-- ===== src/Io/Writables/BytesWritable.antt =====
-- `BytesWritable` of src/io/writable_types.h; its state is the byte string `value_`.
use mini_hadoop.Common.Text.{Bytes}
use mini_hadoop.Io.Buffer.{OutputBuffer, Reader, write_bytes, read_bytes}

unfoldable pub write : OutputBuffer → Bytes → OutputBuffer
write out value = write_bytes out value

unfoldable pub read_fields : Reader Bytes
read_fields = read_bytes
