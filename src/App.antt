-- ===== src/App.antt =====
-- The package service/app: applications, who may do what with them, and their running instances.
pub mod Members
pub mod Info
pub mod Roles
pub mod Permission
pub mod UserApps
pub mod Manage
pub mod Instances
pub mod Service
pub mod Listeners
pub mod Handlers
