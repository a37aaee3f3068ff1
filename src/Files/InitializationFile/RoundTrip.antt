-- ===== src/Files/InitializationFile/RoundTrip.antt =====
-- Encoding and decoding of the initialisation file.
use arinc_615a_cli_tool_suit.Base.{
  List, [], append-nil, append_assoc, arith, length, length-append, le→leb, ok, ℕ, ◌++◌, ◌≡◌, ◌≤◌,
}
use arinc_615a_cli_tool_suit.Files.Buffers.{length-u16, start_with_lem}
use arinc_615a_cli_tool_suit.Files.Header.Laws.{
  IsSupported, decode_header_lem, frame, insert_header_lem, length-frame,
}
use arinc_615a_cli_tool_suit.Files.InitializationFile.{
  InitializationFile, decode, encode, min_file_size,
}
use arinc_615a_cli_tool_suit.Files.Strings.Laws.{IsPlain, string_Codes, string_bounds}
use arinc_615a_cli_tool_suit.RawData.{RawDataLaws, RawDataOps, u16}
use arinc_615a_cli_tool_suit.Status.{IsResponse, acceptance_status, code_value}
use arinc_615a_cli_tool_suit.Status.Conversions.{acceptance-code_value, code_value_bound}

pub record IsInitialization (file : InitializationFile) : Type 0 where
  pub version : IsSupported file.version
  pub code : IsResponse file.response.code
  pub description : IsPlain file.response.description

module _ (raw : RawDataOps) (laws : RawDataLaws raw) where
  -- A file with a supported version, an acceptance code that may be sent, and a plain description of at
  -- most 253 characters is written, and read back whatever the reading object held before.
  pub decode-encode_initialization :
      (old file : InitializationFile)
      → IsInitialization file
      → (e : List ℕ) × (encode raw file ≡ ok e) × (decode raw old e ≡ ok file)
  unfolding encode decode
  decode-encode_initialization old file h =
      let c =
        string_Codes raw laws file.response.description h.description.text h.description.short in
      let n = code_value (acceptance_status file.response.code) in
      let body : List ℕ = raw.int_bytes u16 n ++ c.bytes in
      let size : (3 ≤ length body) × (length body ≤ 257) = omega (
        arith,
        length-append (raw.int_bytes u16 n) c.bytes,
        length-u16 raw laws n,
        string_bounds raw laws file.response.description h.description.text h.description.short,
      ) in
      let long : min_file_size ≤ length (frame raw file.version body) =
        omega (arith, length-frame raw laws file.version body) in
      (
        frame raw file.version body,
        rw (start_with_lem raw laws n, c.writes, append_assoc)
            (insert_header_lem raw laws file.version body (omega arith)),
        rw (
          le→leb min_file_size (length (frame raw file.version body)) long,
          decode_header_lem raw laws file.version body h.version (omega arith),
          laws.get_int_lem u16 n c.bytes (code_value_bound (acceptance_status file.response.code)),
          acceptance-code_value file.response.code h.code,
          rw append-nil at (c.reads []),
        ),
      )
