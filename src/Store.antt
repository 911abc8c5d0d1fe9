-- ===== src/Store.antt =====
-- The S3-backed state layer (internal/store/): the bucket, its conditional reads and writes, the
-- read-modify-write loop `Merge` and the `Lease` of one object.
pub mod Client
pub mod Backend
pub mod Merge
pub mod Lease
