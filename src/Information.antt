-- ===== src/Information.antt =====
-- lib/arinc_615a/information: what the protocol files carry. A filename or a text is the list of its
-- characters. Ratio.cpp and InitializationResponse.cpp are with the files that carry them.
pub mod WellFormed
pub mod Operations
use arinc_615a_cli_tool_suit.Base.{List, ℕ}
use arinc_615a_cli_tool_suit.Files.Ratio.{Ratio}
use arinc_615a_cli_tool_suit.Status.{StatusCode}

-- Status.cpp: the state of an operation. `estimated_time` is the pattern of an `int16_t`.
pub record Status : Type 0 where
  pub counter : ℕ
  pub exception_timer : ℕ
  pub estimated_time : ℕ
  pub code : StatusCode
  pub description : List ℕ

-- PartNumber.hpp and TargetHardware.hpp.
pub record PartNumber : Type 0 where
  pub part_number : List ℕ
  pub amendment : List ℕ
  pub part_designation : List ℕ

pub record TargetHardware : Type 0 where
  pub literal_name : List ℕ
  pub serial_number : List ℕ
  pub part_numbers : List PartNumber

-- UploadLoad.hpp and DownloadFileInformation.hpp.
pub record UploadLoad : Type 0 where
  pub header_filename : List ℕ
  pub part_number : List ℕ

pub record DownloadFileInformation : Type 0 where
  pub filename : List ℕ
  pub description : List ℕ

-- UploadLoadStatus.cpp and DownloadFileStatus.cpp.
pub record UploadLoadStatus : Type 0 where
  pub header_filename : List ℕ
  pub part_number : List ℕ
  pub ratio : Ratio
  pub code : StatusCode
  pub description : List ℕ

pub record DownloadFileStatus : Type 0 where
  pub filename : List ℕ
  pub code : StatusCode
  pub description : List ℕ

-- UploadStatus.cpp and DownloadStatus.cpp: a state with the ratio and the states of the parts.
pub record UploadStatus : Type 0 where
  pub status : Status
  pub list_ratio : Ratio
  pub loads : List UploadLoadStatus

pub record DownloadStatus : Type 0 where
  pub status : Status
  pub list_ratio : Ratio
  pub files : List DownloadFileStatus
