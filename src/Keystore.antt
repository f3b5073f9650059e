-- ===== src/Keystore.antt =====
-- components/keystore: sets of keys in a Kubernetes secret.
pub mod Keys
pub mod KeySet
pub mod Secret
pub mod Store
pub mod Watch
pub mod Newest
pub mod Sealed
pub mod Creates
pub mod Names
mod Tests
