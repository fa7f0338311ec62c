-- ===== src/Tests.antt =====
-- The modules at concrete inputs: small pages, tables, storages and buffers.
mod Node
mod Sort
mod Mapping
mod Storage
mod Buffer
mod Tree
mod Walk
mod Nor
mod Grow
mod NorBatch
mod NorPut
