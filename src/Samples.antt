-- ===== src/Samples.antt =====
-- Concrete stores and libraries, on which the witnesses run the code.
pub mod Memory
pub mod Pack
pub mod Strings
pub mod Trees
pub mod Wire
pub mod Node
pub mod Logs
