-- ===== src/Ndfs.antt =====
-- The directory src/ndfs: the distributed file system.
pub mod InodeTree
pub mod FsImage
pub mod FsNamesystem
pub mod NameNode
pub mod BlockStorage
pub mod DataXceive
pub mod DfsClient
pub mod DataNode
