-- ===== src/Identity/Accepted.antt =====
-- What a validation with no error guarantees.
mod Primitives
mod Entries
mod Rows
mod Ranges
mod Collect
pub mod Whole
pub mod Consistent
pub mod Secrets
