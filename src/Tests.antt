-- ===== src/Tests.antt =====
-- The theorems at concrete inputs, and runs of the code.
pub mod Differ
pub mod Users
pub mod Apps
pub mod Namespaces
pub mod Cluster
pub mod Instances
pub mod Requests
pub mod Logs
pub mod Pushes
pub mod Sockets
pub mod Listings
pub mod Yaml
pub mod Serving
