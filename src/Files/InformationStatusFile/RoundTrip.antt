-- ===== src/Files/InformationStatusFile/RoundTrip.antt =====
-- Encoding and decoding of the information status file.
use arinc_615a_cli_tool_suit.Base.{
  List, append-nil, append_assoc, arith, length, length-append, le→leb, ok, reads_all, replicate, ℕ,
  ◌++◌, ◌+◌, ◌≡◌, ◌≤◌,
}
use arinc_615a_cli_tool_suit.Files.Buffers.{length-u16}
use arinc_615a_cli_tool_suit.Files.Header.{header_size}
use arinc_615a_cli_tool_suit.Files.Header.Laws.{
  IsSupported, decode_header_lem, frame, insert_header_lem, length-frame,
}
use arinc_615a_cli_tool_suit.Files.InformationStatusFile.{InformationStatusFile, decode, encode}
use arinc_615a_cli_tool_suit.Files.Strings.Laws.{string_Codes, string_bounds}
use arinc_615a_cli_tool_suit.Information.{Status}
use arinc_615a_cli_tool_suit.Information.WellFormed.{IsStatus}
use arinc_615a_cli_tool_suit.RawData.{RawDataLaws, RawDataOps, u16}
use arinc_615a_cli_tool_suit.Status.{code_value}
use arinc_615a_cli_tool_suit.Status.Conversions.{code_value_bound, status_code-code_value}

module _ (raw : RawDataOps) (laws : RawDataLaws raw) where
  status_wire : (s : Status) → IsStatus s → List ℕ
  status_wire s h =
      raw.int_bytes u16 s.counter
      ++ (raw.int_bytes u16 (code_value s.code)
          ++ (raw.int_bytes u16 s.exception_timer
              ++ (raw.int_bytes u16 s.estimated_time
                  ++ (string_Codes raw laws s.description h.description.text
                      h.description.short).bytes)))

  length-status_wire :
      (s : Status) (h : IsStatus s)
      → (9 ≤ length (status_wire s h)) × (length (status_wire s h) ≤ 263)
  unfolding status_wire
  length-status_wire s h =
      let c = string_Codes raw laws s.description h.description.text h.description.short in
      let t = raw.int_bytes u16 s.estimated_time in
      let e = raw.int_bytes u16 s.exception_timer in
      let k = raw.int_bytes u16 (code_value s.code) in
      omega (
        arith,
        length-append (raw.int_bytes u16 s.counter) (k ++ (e ++ (t ++ c.bytes))),
        length-append k (e ++ (t ++ c.bytes)),
        length-append e (t ++ c.bytes),
        length-append t c.bytes,
        length-u16 raw laws s.counter,
        length-u16 raw laws (code_value s.code),
        length-u16 raw laws s.exception_timer,
        length-u16 raw laws s.estimated_time,
        string_bounds raw laws s.description h.description.text h.description.short,
      )

  encode_lem :
      (file : InformationStatusFile) (h : IsStatus file.status)
      → encode raw file ≡ ok (frame raw file.version (status_wire file.status h))
  unfolding encode status_wire
  encode_lem file h =
      let s = file.status in
      let c = string_Codes raw laws s.description h.description.text h.description.short in
      let small = length-status_wire s h in
      rw
        (
          laws.set_int_lem u16 (replicate 8 0) s.counter (omega arith),
          laws.set_int_lem u16 (replicate 6 0) (code_value s.code) (omega arith),
          laws.set_int_lem u16 (replicate 4 0) s.exception_timer (omega arith),
          laws.set_int_lem u16 (replicate 2 0) s.estimated_time (omega arith),
          c.writes,
        )
        (simp (append-nil, append_assoc)
          (insert_header_lem raw laws file.version (status_wire s h) (omega arith)))

  decode_lem :
      (old file : InformationStatusFile) (h : IsStatus file.status)
      → IsSupported file.version
      → decode raw old (frame raw file.version (status_wire file.status h)) ≡ ok file
  unfolding decode status_wire
  decode_lem old file h v =
      let s = file.status in
      let c = string_Codes raw laws s.description h.description.text h.description.short in
      let small = length-status_wire s h in
      let body = status_wire s h in
      let long : header_size + 9 ≤ length (frame raw file.version body) =
        omega (arith, length-frame raw laws file.version body) in
      let t = raw.int_bytes u16 s.estimated_time in
      let e = raw.int_bytes u16 s.exception_timer in
      let k = raw.int_bytes u16 (code_value s.code) in
      rw (
        le→leb (header_size + 9) (length (frame raw file.version body)) long,
        decode_header_lem raw laws file.version body v (omega arith),
        laws.get_int_lem u16 s.counter (k ++ (e ++ (t ++ c.bytes))) h.counter,
        laws.get_int_lem u16 (code_value s.code) (e ++ (t ++ c.bytes)) (code_value_bound s.code),
        status_code-code_value s.code h.code,
        laws.get_int_lem u16 s.exception_timer (t ++ c.bytes) h.exception_timer,
        laws.get_int_lem u16 s.estimated_time c.bytes h.estimated_time,
        reads_all c,
      )

  -- A file with a supported version, numbers within their widths, a status code that may be sent, and a
  -- plain description of at most 253 characters is written, and read back whatever the reading object
  -- held before.
  pub decode-encode_information_status :
      (old file : InformationStatusFile)
      → IsSupported file.version
      → IsStatus file.status
      → (e : List ℕ) × (encode raw file ≡ ok e) × (decode raw old e ≡ ok file)
  decode-encode_information_status old file v h = (
    frame raw file.version (status_wire file.status h),
    encode_lem file h,
    decode_lem old file h v,
  )
