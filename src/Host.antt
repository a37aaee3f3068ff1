-- ===== src/Host.antt =====
-- lib/arinc_615a/host: the operations of the data loader.
pub mod Operation
pub mod InformationOperation
pub mod UploadOperation
pub mod DownloadOperation
