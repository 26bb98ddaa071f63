-- ===== src/Tests.antt =====
-- The theorems of the library at concrete inputs, and runs of the pool.
mod QueueWitnesses
mod Sample
mod ServerWitnesses
mod HeapWitnesses
mod HttpSample
mod ChunkWitnesses
mod HttpWitnesses
mod NodeWitnesses
mod PeerWitnesses
mod Witnesses
