-- ===== src/Tftp/ErrorMessage/RoundTrip.antt =====
-- ABORT and WAIT messages, written and read back.
use arinc_615a_cli_tool_suit.Base.{
  >>=-eq-ok, Bool-cases, List, [], arith, if◌then◌else◌, inl, inr, length, length-append, ltb,
  lt→ltb, ok, ok_injective, refl, require, require-eq-ok, some, starts_with, starts_with-append,
  suc, sym, true, value_out_of_range, zero, ℕ, ◌++◌, ◌/◌, ◌<◌, ◌==◌, ◌||◌, ◌∙◌, ◌∷◌, ◌≡◌,
}
use arinc_615a_cli_tool_suit.Files.Strings.Wire.{fits}
use arinc_615a_cli_tool_suit.Status.{
  StatusCode, code_value, invalid_status, operation_accepted, operation_deferred,
  operation_in_progress_additional_info,
}
use arinc_615a_cli_tool_suit.Tftp.{abort_message, not_defined, wait_message}
use arinc_615a_cli_tool_suit.Tftp.ErrorMessage.{
  abort_decode, abort_encode, error_message_type, format_count, format_decimal, format_hex,
  from_chars, pos, scan_digits, switch_on, wait_decode, wait_encode, wait_error_string,
}
use arinc_615a_cli_tool_suit.Tftp.ErrorMessage.Numbers.{from_chars-format_decimal}

length-snoc : (xs : List ℕ) (x : ℕ) → 0 < length (xs ++ x ∷ [])
length-snoc xs x = omega (arith, length-append xs (x ∷ []))

format_decimal_full : (fuel value : ℕ) → 0 < length (format_decimal fuel value)
unfolding format_decimal
format_decimal_full zero value = omega arith
format_decimal_full (suc fuel) value = elim (Bool-cases (ltb value 10)) [
  | inl e ↦ rw e (omega arith)
  | inr e ↦ rw e (length-snoc (format_decimal fuel (value / 10)) _)
]

-- A wait time that fits 16 bits is written, and the message is recognised as a WAIT
-- message and read back as the time.
wait_decode-wait_encode :
    (wait_time : ℕ)
    → wait_time < 65536
    → (message : List ℕ) × (wait_encode (pos wait_time) ≡ ok message)
      × (wait_decode message ≡ some wait_time)
      × (error_message_type (some (not_defined, message)) ≡ wait_message)
unfolding wait_encode wait_decode error_message_type
wait_decode-wait_encode n h = (
  wait_error_string ++ format_decimal n n,
  rw (lt→ltb n 65536 h) refl,
  rw starts_with-append (from_chars-format_decimal n h),
  rw (starts_with-append wait_error_string) (ground (arith, format_decimal_full n n)),
)

wait_encode_fits : (n : ℕ) (message : List ℕ) → wait_encode (pos n) ≡ ok message → n < 65536
unfolding wait_encode
wait_encode_fits n message h =
    let (u, fits, rest) =
      >>=-eq-ok (require (ltb n 65536) value_out_of_range)
        (λ _. ok (wait_error_string ++ format_count (pos n))) h in
    let test : ltb n 65536 ≡ true = require-eq-ok (ltb n 65536) value_out_of_range fits in
    ground arith

-- What the reader makes of a message that was written for a wait time.
pub wait_message_lem :
    (n : ℕ) (message : List ℕ)
    → wait_encode (pos n) ≡ ok message
    → (wait_decode message ≡ some n)
      × (error_message_type (some (not_defined, message)) ≡ wait_message)
wait_message_lem n message h =
    let (written, writes, decoded, kind) =
      wait_decode-wait_encode n (wait_encode_fits n message h) in
    let same : written ≡ message = ok_injective (sym writes ∙ h) in rw (← same) (decoded, kind)

-- A status code that is written in an ABORT message is recognised and read back, but for those that
-- the reader does not list, which it takes for invalid.
pub abort_decode-abort_encode :
    (c : StatusCode)
    → (abort_decode (abort_encode c) ≡ (
        if code_value c == code_value operation_in_progress_additional_info
          || code_value c == code_value operation_deferred
        then invalid_status
        else c))
      × (error_message_type (some (not_defined, abort_encode c)) ≡ abort_message)
unfolding abort_decode abort_encode error_message_type from_chars scan_digits format_hex switch_on
    starts_with
abort_decode-abort_encode operation_accepted = (refl, refl)
abort_decode-abort_encode _ = (refl, refl)
