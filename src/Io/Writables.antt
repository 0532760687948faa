-- ===== src/Io/Writables.antt =====
-- src/io/writable_types.h and src/io/md5.h: one child for each writable class, with its state as
-- the value it holds.
pub mod IntWritable
pub mod LongWritable
pub mod BooleanWritable
pub mod BytesWritable
pub mod NullWritable
pub mod Writable
pub mod Utf8
pub mod Utf8Order
pub mod Md5Hash
mod Examples
