-- ===== src/Status/Conversions.antt =====
-- The conversions of StatusCode.cpp against each other.
use arinc_615a_cli_tool_suit.Base.{arith, ok, refl, ℕ, ◌<◌, ◌≡◌, ◌≢◌}
use arinc_615a_cli_tool_suit.RawData.{modulus, u16}
use arinc_615a_cli_tool_suit.Status.{
  FinalStatus, IsResponse, IsTransmitted, OperationAcceptanceStatusCode, StatusCode,
  acceptance_status, accepted, code_value, deferred, final_load_part_number_or_download_file_failed,
  final_status, invalid_status, operation_acceptance_status_code, operation_accepted,
  operation_deferred, status_code, status_code_of_final,
}

pub code_value_bound : (c : StatusCode) → code_value c < modulus u16
code_value_bound operation_accepted = omega arith
code_value_bound _ = omega arith

-- A code that may be transmitted is decoded from its own value.
pub status_code-code_value : (c : StatusCode) → IsTransmitted c → status_code (code_value c) ≡ ok c
unfolding status_code
status_code-code_value operation_deferred h = absurd h
status_code-code_value invalid_status h = absurd h
status_code-code_value _ h = refl

-- Only the value of a transmitted code is accepted, and it is decoded as that code.
status_code_sound :
    (n : ℕ) (c : StatusCode) → status_code n ≡ ok c → (n ≡ code_value c) × IsTransmitted c
unfolding status_code
status_code_sound n operation_accepted h = ground arith
status_code_sound n c h = ground arith

pub acceptance-code_value :
    (c : OperationAcceptanceStatusCode)
    → IsResponse c
    → operation_acceptance_status_code (code_value (acceptance_status c)) ≡ ok c
unfolding operation_acceptance_status_code
acceptance-code_value deferred h = absurd h
acceptance-code_value _ h = refl

pub acceptance_sound :
    (n : ℕ) (c : OperationAcceptanceStatusCode)
    → operation_acceptance_status_code n ≡ ok c
    → (n ≡ code_value (acceptance_status c)) × IsResponse c
unfolding operation_acceptance_status_code
acceptance_sound n accepted h = ground arith
acceptance_sound n c h = ground arith

-- The acceptance codes that are decoded are decoded as status codes too, to the code they cast to.
acceptance-status_code :
    (n : ℕ) (c : OperationAcceptanceStatusCode)
    → operation_acceptance_status_code n ≡ ok c
    → status_code n ≡ ok (acceptance_status c)
unfolding operation_acceptance_status_code status_code
acceptance-status_code n accepted h = ground arith
acceptance-status_code n c h = ground arith

-- `finalStatus` undoes `statusCode` on every final status but the failure of one load or file.
final_status-status_code :
    (s : FinalStatus)
    → s ≢ final_load_part_number_or_download_file_failed
    → final_status (status_code_of_final s) ≡ s
unfolding final_status status_code_of_final
final_status-status_code final_load_part_number_or_download_file_failed h = absurd (h refl)
final_status-status_code _ h = refl
