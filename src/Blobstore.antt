-- ===== src/Blobstore.antt =====
-- services/blobstore: a store of blobs under their hashes, its server and its client.
pub mod Disk
pub mod FsStore
pub mod Service
pub mod Client
mod Tests
