-- ===== src/Money.antt =====
-- packages/money: scaled integers, their arithmetic, and the one implementation of a bill.
pub mod Errors
pub mod Brand
pub mod Round
pub mod Arithmetic
pub mod Allocate
pub mod Line
pub mod Text
mod Tests
