-- ===== src/Mapred.antt =====
-- The distributed execution of MapReduce jobs, src/mapred.
pub mod DistJobTracker
pub mod TaskTracker
pub mod JobTracker
pub mod TextReader
pub mod NdfsIo
pub mod WordCount
