-- ===== src/Tftp.antt =====
-- lib/arinc_615a/tftp: the TFTP layer of ARINC 615A. This file models Tftp.hpp and what it names of
-- the TFTP library.
pub mod ErrorMessage
pub mod ClientOperation
use arinc_615a_cli_tool_suit.Base.{Bool, List, Option, false, true, ℕ}

-- `::Tftp::TransferStatus` of the TFTP library, with the enumerators that Tftp.hpp names.
pub data TftpTransferStatus : Type 0 where
  tftp_successful tftp_communication_error tftp_request_error : TftpTransferStatus
  tftp_option_negotiation_error tftp_transfer_error tftp_aborted : TftpTransferStatus

pub data TransferStatus : Type 0 where
  successful communication_error request_error option_negotiation_error : TransferStatus
  transfer_error aborted aborted_by_dlp aborted_by_operator invalid_transfer : TransferStatus

pub data ErrorMessageType : Type 0 where
  abort_message wait_message invalid_message : ErrorMessageType

abbrev pub is_invalid : ErrorMessageType → Bool
is_invalid invalid_message = true
is_invalid _ = false

-- `::Tftp::Packets::ErrorCode`: the code that the sources test, and the others by their number.
pub data ErrorCode : Type 0 where
  not_defined : ErrorCode
  other_code : ℕ → ErrorCode

abbrev pub is_not_defined : ErrorCode → Bool
is_not_defined not_defined = true
is_not_defined (other_code n) = false

-- `::Tftp::Packets::ErrorInformation`.
abbrev pub ErrorInformation : Type 0
ErrorInformation = Option (ErrorCode × List ℕ)

-- `::Tftp::RequestType` of the TFTP library.
pub data RequestType : Type 0 where
  read_request write_request : RequestType
