-- ===== src/Target.antt =====
-- lib/arinc_615a/target: the operations of the equipment that is loaded.
pub mod Operation
pub mod Machine
pub mod UploadOperation
pub mod DownloadOperation
pub mod InformationOperation
pub mod ErrorOperation
pub mod Protocol
