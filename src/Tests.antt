-- ===== src/Tests.antt =====
-- Concrete inputs for the theorems, and runs of the definitions on them.
mod Memory
mod Printer
mod Documents
mod LlmTests
mod SqlTests
mod JournalTests
mod StoreTests
mod QueueTests
mod TextTests
mod ProjectTests
mod LedgerTests
mod CacheTests
mod RoundTests
mod MergeTests
mod TickTests
