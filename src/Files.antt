-- ===== src/Files.antt =====
-- lib/arinc_615a/files: the protocol files.
pub mod Strings
pub mod Ratio
pub mod Header
pub mod Buffers
pub mod Items
pub mod InitializationFile
pub mod InformationStatusFile
pub mod StateFields
pub mod LoadConfigurationListFile
pub mod UploadRequestFile
pub mod UploadStatusFile
pub mod DownloadListFile
pub mod DownloadAnswerFile
pub mod DownloadRequestFile
pub mod DownloadStatusFile
pub mod Failures
