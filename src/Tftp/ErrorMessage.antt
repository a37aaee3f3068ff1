-- ===== src/Tftp/ErrorMessage.antt =====
-- lib/arinc_615a/tftp/ErrorMessage.cpp: the ABORT and WAIT messages in TFTP error packets.
pub mod Numbers
pub mod RoundTrip
use arinc_615a_cli_tool_suit.Base.{
  Bool, List, Option, Result, [], drop, false, if◌then◌else◌, leb, length, ltb, none, not, ok,
  require, some, starts_with, suc, value_out_of_range, zero, ℕ, ◌%◌, ◌&&◌, ◌*◌, ◌++◌, ◌+◌, ◌-◌, ◌/◌,
  ◌==◌, ◌∷◌, ◌>>◌,
}
use arinc_615a_cli_tool_suit.Status.{
  StatusCode, code_value, invalid_status, load_part_number_or_download_file_failed,
  operation_aborted_by_dlp, operation_aborted_by_operator, operation_aborted_by_target_hw,
  operation_accepted, operation_completed, operation_in_progress, operation_not_accepted,
  operation_not_supported, status_code,
}
use arinc_615a_cli_tool_suit.Tftp.{
  ErrorInformation, ErrorMessageType, abort_message, invalid_message, is_not_defined, wait_message,
}

abbrev pub wait_error_string : List ℕ
wait_error_string = b'W' ∷ b'A' ∷ b'I' ∷ b'T' ∷ b':' ∷ []

abbrev pub abort_error_string : List ℕ
abort_error_string = b'A' ∷ b'B' ∷ b'O' ∷ b'R' ∷ b'T' ∷ b':' ∷ []

-- A message that begins with one of the two strings needs a character behind it.
abbrev pub longer_than : List ℕ → List ℕ → ErrorMessageType → ErrorMessageType
longer_than error_message prefix t =
    if leb (length error_message) (length prefix) then invalid_message else t

unfoldable pub error_message_type : ErrorInformation → ErrorMessageType
error_message_type none = invalid_message
error_message_type (some (code, error_message)) =
    if not (is_not_defined code)
    then invalid_message
    else if starts_with error_message wait_error_string
    then longer_than error_message wait_error_string wait_message
    else if starts_with error_message abort_error_string
    then longer_than error_message abort_error_string abort_message
    else invalid_message

-- `std::format` of `{:04X}` for 16 bits.
abbrev pub upper_hex : ℕ → ℕ
upper_hex d = if ltb d 10 then b'0' + d else b'A' + (d - 10)

unfoldable pub format_hex : ℕ → List ℕ
format_hex value =
    upper_hex (value / 4096 % 16)
    ∷ upper_hex (value / 256 % 16)
    ∷ upper_hex (value / 16 % 16)
    ∷ upper_hex (value % 16)
    ∷ []

-- `std::format` of `{}`. Each step drops a digit, so the value itself is enough fuel.
unfoldable pub format_decimal : ℕ → ℕ → List ℕ
format_decimal zero value = (b'0' + value % 10) ∷ []
format_decimal (suc fuel) value =
    let rest = format_decimal fuel (value / 10) in
    if ltb value 10 then (b'0' + value) ∷ [] else rest ++ (b'0' + value % 10) ∷ []

-- The digit that a character stands for, in any base; 36 where it stands for none.
abbrev pub digit_of : ℕ → ℕ
digit_of c =
    if leb b'0' c && leb c b'9'
    then c - b'0'
    else if leb b'A' c && leb c b'Z'
    then c - b'A' + 10
    else if leb b'a' c && leb c b'z'
    then c - b'a' + 10
    else 36

abbrev pub value_or_zero : Option ℕ → ℕ
value_or_zero none = 0
value_or_zero (some v) = v

-- `std::from_chars` for `uint16_t`: the digits at the front; no digit and a value out of range are
-- errors.
unfoldable pub scan_digits : ℕ → List ℕ → Option ℕ → Option ℕ
scan_digits base [] value = value
scan_digits base (c ∷ text) value =
    let rest = scan_digits base text (some (value_or_zero value * base + digit_of c)) in
    if ltb (digit_of c) base then rest else value

abbrev pub in_uint16 : Option ℕ → Option ℕ
in_uint16 none = none
in_uint16 (some v) = if ltb v 65536 then some v else none

unfoldable pub from_chars : ℕ → List ℕ → Option ℕ
from_chars base text = in_uint16 (scan_digits base text none)

unfoldable pub abort_encode : StatusCode → List ℕ
abort_encode status_code = abort_error_string ++ format_hex (code_value status_code)

-- The switch over the codes that an ABORT message may carry.
abbrev pub abort_codes : List StatusCode
abort_codes =
    operation_accepted ∷ operation_not_accepted ∷ operation_not_supported ∷ operation_in_progress
    ∷ operation_completed ∷ operation_aborted_by_target_hw ∷ operation_aborted_by_dlp
    ∷ operation_aborted_by_operator ∷ load_part_number_or_download_file_failed ∷ []

unfoldable pub switch_on : ℕ → List StatusCode → StatusCode
switch_on value [] = invalid_status
switch_on value (c ∷ codes) =
    let rest = switch_on value codes in if code_value c == value then c else rest

abbrev pub checked_code : Option ℕ → StatusCode
checked_code none = invalid_status
checked_code (some status_code) = switch_on status_code abort_codes

unfoldable pub abort_decode : List ℕ → StatusCode
abort_decode error_message =
    if not (starts_with error_message abort_error_string)
    then invalid_status
    else checked_code (from_chars 16 (drop 6 error_message))

-- A count of seconds is signed.
pub data ℤ : Type 0 where
  pos : ℕ → ℤ
  negsuc : ℕ → ℤ

-- `std::in_range< uint16_t >`.
abbrev pub in_range : ℤ → Bool
in_range (pos n) = ltb n 65536
in_range (negsuc n) = false

abbrev pub format_count : ℤ → List ℕ
format_count (pos n) = format_decimal n n
format_count (negsuc n) = b'-' ∷ format_decimal (suc n) (suc n)

unfoldable pub wait_encode : ℤ → Result (List ℕ)
wait_encode wait_time = do
  require (in_range wait_time) value_out_of_range
  ok (wait_error_string ++ format_count wait_time)

unfoldable pub wait_decode : List ℕ → Option ℕ
wait_decode error_message =
    if not (starts_with error_message wait_error_string)
    then none
    else from_chars 10 (drop 5 error_message)
