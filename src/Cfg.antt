-- ===== src/Cfg.antt =====
-- The package service/cfg: configuration namespaces, their differences and their release.
pub mod Differ
pub mod Codec
pub mod Flat
pub mod Diff
pub mod Admin
pub mod Client
pub mod Push
pub mod History
pub mod Yaml
pub mod Convert
pub mod DeepPut
