-- ===== src/Utils.antt =====
-- core/Utils.cpp: conversions between what the user types and what the chain reads.
pub mod Json
pub mod Casts
pub mod Amounts
pub mod Case
pub mod Hex
pub mod Bytes
pub mod Rounding
