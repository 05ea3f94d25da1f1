-- ===== src/Book.antt =====
-- internal/book/book.go: the order book of one symbol.
pub mod State
pub mod Sides
pub mod Matching
pub mod Handlers
pub mod Checks
pub mod Snapshots
pub mod View
pub mod Spec
pub mod Refines
pub mod Validity
pub mod Audit
pub mod Restore
pub mod Trading
pub mod Reachable
pub mod Tests
