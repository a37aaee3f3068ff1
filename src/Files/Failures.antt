-- ===== src/Files/Failures.antt =====
-- The exceptions of the decodings of lib/arinc_615a/files, and which of them a
-- `catch ( const Arinc615aException & )` takes. A read behind a check of the length does not fail.
use arinc_615a_cli_tool_suit.Base.{
  IsContained, IsContained-if, IsContained-ok, IsContained-require, IsContained-step, List, Option,
  Result, [], arith, decode_many, find, is_empty, leb, leb→le, length, ltb, none, refl, some, suc,
  zero, ℕ, ◌++◌, ◌==◌, ◌∷◌, ◌≤◌,
}
use arinc_615a_cli_tool_suit.Files.DownloadAnswerFile
use arinc_615a_cli_tool_suit.Files.DownloadAnswerFile.{DownloadAnswerFile}
use arinc_615a_cli_tool_suit.Files.Header.{decode_header, header_size, protocol_version}
use arinc_615a_cli_tool_suit.Files.Header.Laws.{decode_header_sound}
use arinc_615a_cli_tool_suit.Files.InitializationFile
use arinc_615a_cli_tool_suit.Files.InitializationFile.{InitializationFile}
use arinc_615a_cli_tool_suit.Files.Strings.{decode_content, string_decode, up_to_null}
use arinc_615a_cli_tool_suit.Files.UploadRequestFile
use arinc_615a_cli_tool_suit.Files.UploadRequestFile.{UploadRequestFile}
use arinc_615a_cli_tool_suit.RawData.{RawDataLaws, RawDataOps, Width, size_of, u16, u32, u8}
use arinc_615a_cli_tool_suit.Status.{operation_acceptance_status_code}

module _ (raw : RawDataOps) (laws : RawDataLaws raw) where
  get_int-IsContained :
      (w : Width) (span : List ℕ) → size_of w ≤ length span → IsContained (raw.get_int w span)
  get_int-IsContained w span h = let (rest, v, e) = laws.get_int_long w span h in IsContained-ok e

  up_to_null-IsContained :
      (text : List ℕ) (position : Option ℕ) → IsContained (up_to_null text position)
  up_to_null-IsContained text none = record { contained = refl }
  up_to_null-IsContained text (some n) = IsContained-ok refl

  decode_content-IsContained :
      (span : List ℕ) (n : ℕ) → n ≤ length span → IsContained (decode_content raw span n)
  unfolding decode_content
  decode_content-IsContained span n h =
      let (rest, text, e) = laws.get_string_long span n h in
      IsContained-step (IsContained-ok e) λ p got.
        IsContained-step (up_to_null-IsContained p.1 (find 0 p.1)) λ t found. IsContained-ok refl

  string_decode-IsContained : (span : List ℕ) → IsContained (string_decode raw span)
  unfolding string_decode
  string_decode-IsContained [] = record { contained = refl }
  string_decode-IsContained (b ∷ span) =
      IsContained-step (get_int-IsContained u8 (b ∷ span) (omega arith)) λ p got.
        IsContained-require (leb p.1 (length p.0)) _ refl λ long.
          IsContained-if (ltb 0 p.1)
            (λ e. decode_content-IsContained p.0 p.1 (leb→le p.1 (length p.0) long))
            (λ e. IsContained-ok refl)

  protocol_version-IsContained : (value : ℕ) → IsContained (protocol_version value)
  unfolding protocol_version
  protocol_version-IsContained value =
      IsContained-if (value == 0x4133) (λ e. IsContained-ok refl)
        λ e.
          IsContained-if (value == 0x4134) (λ k. IsContained-ok refl)
            (λ k. record { contained = refl })

  decode_header-IsContained : (span : List ℕ) → IsContained (decode_header raw span)
  unfolding decode_header
  decode_header-IsContained span =
      IsContained-require (leb header_size (length span)) _ refl λ long.
        IsContained-step
          (get_int-IsContained u32 span (omega (arith, leb→le header_size (length span) long)))
          λ p got. IsContained-require (p.1 == length span) _ refl λ same.
            let (size, small) = laws.get_int_sound u32 span p.0 p.1 got in
            IsContained-step
              (get_int-IsContained u16 p.0 (omega (arith, leb→le header_size (length span) long)))
              λ q read.
                IsContained-step (protocol_version-IsContained q.1) λ v known. IsContained-ok refl

  decode_many-IsContained :
      {A : Type 0} (decode : List ℕ → Result (List ℕ × A))
      → ((span : List ℕ) → IsContained (decode span))
      → (count : ℕ) (items : List A) (span : List ℕ)
      → IsContained (decode_many decode count items span)
  unfolding decode_many
  decode_many-IsContained decode h zero items span = IsContained-ok refl
  decode_many-IsContained decode h (suc count) items span =
      IsContained-step (h span)
        λ p got. decode_many-IsContained decode h count (items ++ p.1 ∷ []) p.0

  decode_load-IsContained : (span : List ℕ) → IsContained (UploadRequestFile.decode_load raw span)
  unfolding UploadRequestFile.decode_load
  decode_load-IsContained span =
      IsContained-step (string_decode-IsContained span)
        λ p got. IsContained-step (string_decode-IsContained p.0) λ q read. IsContained-ok refl

  pub decode_upload_request-IsContained :
      (file : UploadRequestFile) (span : List ℕ)
      → IsContained (UploadRequestFile.decode raw file span)
  unfolding UploadRequestFile.decode
  decode_upload_request-IsContained file span =
      IsContained-require (leb UploadRequestFile.minimum_size (length span)) _ refl λ long.
        IsContained-step (decode_header-IsContained span) λ p header.
          let (supported, size, small) = decode_header_sound raw laws span p.0 p.1 header in
          IsContained-step
            (get_int-IsContained u16 p.0
              (omega (arith, leb→le UploadRequestFile.minimum_size (length span) long)))
            λ q read.
              IsContained-step
                (decode_many-IsContained _ decode_load-IsContained q.1 file.loads q.0)
                λ r loads. IsContained-require (is_empty r.0) _ refl λ e. IsContained-ok refl

  pub decode_download_answer-IsContained :
      (file : DownloadAnswerFile) (span : List ℕ)
      → IsContained (DownloadAnswerFile.decode raw file span)
  unfolding DownloadAnswerFile.decode
  decode_download_answer-IsContained file span =
      IsContained-require (leb DownloadAnswerFile.minimum_size (length span)) _ refl λ long.
        IsContained-step (decode_header-IsContained span) λ p header.
          let (supported, size, small) = decode_header_sound raw laws span p.0 p.1 header in
          IsContained-step
            (get_int-IsContained u16 p.0
              (omega (arith, leb→le DownloadAnswerFile.minimum_size (length span) long)))
            λ q read.
              IsContained-step
                (decode_many-IsContained _ string_decode-IsContained q.1 file.files q.0)
                λ r files. IsContained-require (is_empty r.0) _ refl λ e. IsContained-ok refl

  acceptance-IsContained : (code : ℕ) → IsContained (operation_acceptance_status_code code)
  unfolding operation_acceptance_status_code
  acceptance-IsContained code =
      IsContained-if (code == 0x0001) (λ e. IsContained-ok refl)
        λ e.
          IsContained-if (code == 0x1000) (λ k. IsContained-ok refl)
            λ k.
              IsContained-if (code == 0x1002) (λ l. IsContained-ok refl)
                (λ l. record { contained = refl })

  -- So the host catches whatever the decoding of an initialization file throws.
  decode_initialization-IsContained :
      (file : InitializationFile) (span : List ℕ)
      → IsContained (InitializationFile.decode raw file span)
  unfolding InitializationFile.decode
  decode_initialization-IsContained file span =
      IsContained-require (leb InitializationFile.min_file_size (length span)) _ refl λ long.
        IsContained-step (decode_header-IsContained span) λ p header.
          let (supported, size, small) = decode_header_sound raw laws span p.0 p.1 header in
          IsContained-step
            (get_int-IsContained u16 p.0
              (omega (arith, leb→le InitializationFile.min_file_size (length span) long)))
            λ q read. IsContained-step (acceptance-IsContained q.1) λ c known.
              IsContained-step (string_decode-IsContained q.0)
                λ r text. IsContained-require (is_empty r.0) _ refl λ e. IsContained-ok refl
