-- ===== src/Projects.antt =====
-- The engineering projects (projects/): the memory and the ledger of one project.
pub mod Memory
pub mod Review
pub mod Ledger
pub mod Rounds
pub mod AutoMerge
pub mod Advance
