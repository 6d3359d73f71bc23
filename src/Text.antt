-- ===== src/Text.antt =====
-- Go strings as lists of bytes, and the operations of the packages strings and strconv on them.
pub mod Bytes
pub mod Fold
pub mod Split
pub mod Index
pub mod Decimal
pub mod Cut
pub mod Order
pub mod Word
