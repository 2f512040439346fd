-- ===== src/Calendar.antt =====
-- The proleptic Gregorian calendar that Go's `time` package reads and writes in UTC, as far as the
-- program's stamps use it. Days are counted from 0000-01-01.
pub mod Blocks
pub mod Civil
pub mod Dates
pub mod Laws
pub mod Order
