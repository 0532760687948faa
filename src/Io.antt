-- ===== src/Io.antt =====
-- The directory src/io: buffers, writables and sequence files.
pub mod Buffer
pub mod Writables
pub mod SequenceFile
