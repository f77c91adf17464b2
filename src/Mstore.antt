-- ===== src/Mstore.antt =====
-- examples/zeromq_mutable_shm_chain/mstore: a store of shared-memory objects with capability tokens.
pub mod Errors
pub mod Dict
pub mod Permissions
pub mod Json
pub mod Records
pub mod Registry
pub mod Protocol
pub mod Server
pub mod Cache
pub mod Exec
pub mod Client
pub mod Endpoint
pub mod Transport
pub mod Regions
