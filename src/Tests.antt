-- ===== src/Tests.antt =====
-- The theorems at concrete inputs, and runs of the definitions.
mod Chars
mod Sample
mod Documented
mod Containers
mod Stores
mod Headers
mod Streams
mod Vineyards
mod Memory
mod Pipelines
mod Requests
mod Sessions
mod Caches
mod Clients
mod Flows
mod Schemas
mod Endpoints
mod Listeners
mod Shares
mod Blobs
mod Relays
