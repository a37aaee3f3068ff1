-- ===== src/Status.antt =====
-- lib/arinc_615a/Arinc615a.hpp (the enumerations) and lib/arinc_615a/StatusCode.cpp.
pub mod Conversions
use arinc_615a_cli_tool_suit.Base.{Result, err, if◌then◌else◌, invalid_status_code, ok, ℕ, ◌==◌}

pub data Arinc615aVersion : Type 0 where
  arinc_615a_1 arinc_615a_2 arinc_615a_34 : Arinc615aVersion

-- `std::to_underlying`.
abbrev pub version_value : Arinc615aVersion → ℕ
version_value arinc_615a_1 = 0x4132
version_value arinc_615a_2 = 0x4133
version_value arinc_615a_34 = 0x4134

pub data StatusCode : Type 0 where
  operation_accepted operation_not_accepted operation_not_supported : StatusCode
  operation_in_progress operation_completed operation_in_progress_additional_info : StatusCode
  operation_aborted_by_target_hw operation_aborted_by_dlp operation_aborted_by_operator : StatusCode
  load_part_number_or_download_file_failed operation_deferred invalid_status : StatusCode

abbrev pub code_value : StatusCode → ℕ
code_value operation_accepted = 0x0001
code_value operation_not_accepted = 0x1000
code_value operation_not_supported = 0x1002
code_value operation_in_progress = 0x0002
code_value operation_completed = 0x0003
code_value operation_in_progress_additional_info = 0x0004
code_value operation_aborted_by_target_hw = 0x1003
code_value operation_aborted_by_dlp = 0x1004
code_value operation_aborted_by_operator = 0x1005
code_value load_part_number_or_download_file_failed = 0x1007
code_value operation_deferred = 0xfffe
code_value invalid_status = 0xffff

pub data OperationAcceptanceStatusCode : Type 0 where
  accepted denied not_supported deferred : OperationAcceptanceStatusCode

-- `static_cast< StatusCode >`.
abbrev pub acceptance_status : OperationAcceptanceStatusCode → StatusCode
acceptance_status accepted = operation_accepted
acceptance_status denied = operation_not_accepted
acceptance_status not_supported = operation_not_supported
acceptance_status deferred = operation_deferred

pub data FinalStatus : Type 0 where
  final_completed final_aborted_by_dlp final_aborted_by_operator : FinalStatus
  final_aborted_by_target_hardware final_load_part_number_or_download_file_failed : FinalStatus

pub data AbortRequest : Type 0 where
  abort_by_dlp abort_by_operator : AbortRequest

-- `statusCode( FinalStatus )`: the last enumerator falls in the `default` case.
unfoldable pub status_code_of_final : FinalStatus → StatusCode
status_code_of_final final_completed = operation_completed
status_code_of_final final_aborted_by_dlp = operation_aborted_by_dlp
status_code_of_final final_aborted_by_operator = operation_aborted_by_operator
status_code_of_final final_aborted_by_target_hardware = operation_aborted_by_target_hw
status_code_of_final _ = operation_aborted_by_target_hw

-- `finalStatus( StatusCode )`.
unfoldable pub final_status : StatusCode → FinalStatus
final_status operation_completed = final_completed
final_status operation_aborted_by_dlp = final_aborted_by_dlp
final_status operation_aborted_by_operator = final_aborted_by_operator
final_status operation_aborted_by_target_hw = final_aborted_by_target_hardware
final_status load_part_number_or_download_file_failed =
    final_load_part_number_or_download_file_failed
final_status _ = final_aborted_by_target_hardware

-- `finalStatus( AbortRequest )`.
unfoldable pub final_status_of_abort : AbortRequest → FinalStatus
final_status_of_abort abort_by_dlp = final_aborted_by_dlp
final_status_of_abort abort_by_operator = final_aborted_by_operator

-- `statusCode( uint16_t )`.
unfoldable pub status_code : ℕ → Result StatusCode
status_code code =
    if code == 0x0001
    then ok operation_accepted
    else if code == 0x1000
    then ok operation_not_accepted
    else if code == 0x1002
    then ok operation_not_supported
    else if code == 0x0002
    then ok operation_in_progress
    else if code == 0x0003
    then ok operation_completed
    else if code == 0x0004
    then ok operation_in_progress_additional_info
    else if code == 0x1003
    then ok operation_aborted_by_target_hw
    else if code == 0x1004
    then ok operation_aborted_by_dlp
    else if code == 0x1005
    then ok operation_aborted_by_operator
    else if code == 0x1007
    then ok load_part_number_or_download_file_failed
    else err invalid_status_code

-- `operationAcceptanceStatusCode( uint16_t )`.
unfoldable pub operation_acceptance_status_code : ℕ → Result OperationAcceptanceStatusCode
operation_acceptance_status_code code =
    if code == 0x0001
    then ok accepted
    else if code == 0x1000
    then ok denied
    else if code == 0x1002
    then ok not_supported
    else err invalid_status_code

-- The codes that may stand in a protocol file: all but the two internal ones.
abbrev pub IsTransmitted : StatusCode → Type 0
IsTransmitted operation_deferred = ⊥
IsTransmitted invalid_status = ⊥
IsTransmitted _ = Unit {0}

abbrev pub IsResponse : OperationAcceptanceStatusCode → Type 0
IsResponse deferred = ⊥
IsResponse _ = Unit {0}

-- The two operations of `OperationType` that download.
pub data DownloadKind : Type 0 where
  media_defined operator_defined : DownloadKind

pub data OperationType : Type 0 where
  invalid_operation information_operation upload_operation : OperationType
  media_defined_download_operation operator_defined_download_operation : OperationType
