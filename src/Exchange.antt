-- ===== src/Exchange.antt =====
-- The host and the target together: lib/arinc_615a/host/implementation and lib/arinc_615a/target/
-- implementation, joined by the protocol files that one writes and the other reads.
pub mod Delivery
pub mod UploadStatus
pub mod FinalStatus
pub mod Information
pub mod Counters
pub mod Initialisation
pub mod DownloadStatus
pub mod Requests
pub mod Names
