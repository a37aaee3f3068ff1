-- ===== src/Tests.antt =====
-- Concrete inputs: the theorems at data that meets their hypotheses, and runs of the definitions.
pub mod Files
pub mod Downloads
pub mod Configurations
pub mod Formats
pub mod Names
pub mod FindPackets
pub mod ClientOperations
pub mod HostOperations
pub mod Uploads
pub mod Targets
pub mod Exchange
pub mod Requests
pub mod HostDownloads
