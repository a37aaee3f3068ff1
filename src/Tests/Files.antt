-- ===== src/Tests/Files.antt =====
-- The initialization, information and upload files at concrete data, in network byte order.
use arinc_615a_cli_tool_suit.Base.{List, [], arith, ok, refl, ℕ, ◌++◌, ◌∷◌, ◌≡◌}
use arinc_615a_cli_tool_suit.Files.Buffers.{start_with}
use arinc_615a_cli_tool_suit.Files.Header.{insert_header}
use arinc_615a_cli_tool_suit.Files.InformationStatusFile.{InformationStatusFile}
use arinc_615a_cli_tool_suit.Files.InitializationFile
use arinc_615a_cli_tool_suit.Files.InitializationFile.{InitializationFile}
use arinc_615a_cli_tool_suit.Files.InitializationFile.RoundTrip.{IsInitialization}
use arinc_615a_cli_tool_suit.Files.Ratio.{Ratio}
use arinc_615a_cli_tool_suit.Files.Strings.{
  clear_last, is_too_long, string_decode, string_encode, write_string,
}
use arinc_615a_cli_tool_suit.Files.Strings.Laws.{IsPlain, string_decode-string_encode}
use arinc_615a_cli_tool_suit.Files.UploadRequestFile.{UploadRequestFile}
use arinc_615a_cli_tool_suit.Files.UploadRequestFile.RoundTrip.{IsUploadRequest}
use arinc_615a_cli_tool_suit.Files.UploadStatusFile
use arinc_615a_cli_tool_suit.Files.UploadStatusFile.{UploadStatusFile}
use arinc_615a_cli_tool_suit.Files.UploadStatusFile.RoundTrip.{
  IsUploadStatus, decode-encode_upload_status,
}
use arinc_615a_cli_tool_suit.Information.{Status, UploadLoad}
use arinc_615a_cli_tool_suit.Information.WellFormed.{IsStatus}
use arinc_615a_cli_tool_suit.RawData.BigEndian.{big_endian, big_endian-RawDataLaws}
use arinc_615a_cli_tool_suit.Status.{arinc_615a_2, arinc_615a_34, denied, operation_in_progress}

abbrev pub text_abc : List ℕ
text_abc = b'A' ∷ b'B' ∷ b'C' ∷ []

abbrev pub text_xyz : List ℕ
text_xyz = b'X' ∷ b'Y' ∷ b'Z' ∷ []

pub plain_abc : IsPlain text_abc
plain_abc = omega arith

pub plain_xyz : IsPlain text_xyz
plain_xyz = omega arith

abbrev pub half_done : Ratio
half_done = record { value = 50 }

abbrev pub in_progress : Status
in_progress = record {
  counter = 1;
  exception_timer = 0;
  estimated_time = 0xffff;
  code = operation_in_progress;
  description = text_xyz;
}

pub in_progress-IsStatus : IsStatus in_progress
in_progress-IsStatus = record {
  counter = omega arith;
  exception_timer = omega arith;
  estimated_time = omega arith;
  code = tt;
  description = plain_xyz;
}

string_decode-string_encode_example :
    (e : List ℕ) × (string_encode big_endian text_abc 8 ≡ ok e)
    × (string_decode big_endian (e ++ 7 ∷ []) ≡ ok (7 ∷ [], text_abc))
unfolding is_too_long
string_decode-string_encode_example =
    string_decode-string_encode big_endian big_endian-RawDataLaws text_abc 8 (7 ∷ []) plain_abc.text
      refl (omega arith)

abbrev denied_file : InitializationFile
denied_file = record {
  version = arinc_615a_2;
  response = record { code = denied; description = text_abc };
}

denied_file-IsInitialization : IsInitialization denied_file
denied_file-IsInitialization = record { version = tt; code = tt; description = plain_abc }

-- The bytes of the file: size, version, status code, and text.
denied_file_bytes :
    InitializationFile.encode big_endian denied_file
    ≡ ok (0 ∷ 0 ∷ 0 ∷ 13 ∷ 0x41 ∷ 0x33 ∷ 0x10 ∷ 0 ∷ 4 ∷ b'A' ∷ b'B' ∷ b'C' ∷ 0 ∷ [])
unfolding InitializationFile.encode start_with string_encode is_too_long write_string clear_last
    insert_header
denied_file_bytes = refl

abbrev information_status : InformationStatusFile
information_status = record { version = arinc_615a_34; status = in_progress }

abbrev one_load : UploadLoad
one_load = record { header_filename = text_abc; part_number = text_xyz }

abbrev upload_request : UploadRequestFile
upload_request = record { version = arinc_615a_34; loads = one_load ∷ [] }

upload_request-IsUploadRequest : IsUploadRequest upload_request
upload_request-IsUploadRequest = record {
  version = tt;
  count = omega arith;
  loads = (record { header_filename = plain_abc; part_number = plain_xyz }, tt);
}

abbrev upload_status : UploadStatusFile
upload_status = record {
  version = arinc_615a_34;
  status = record {
    status = in_progress;
    list_ratio = half_done;
    loads =
        record {
          header_filename = text_abc;
          part_number = text_xyz;
          ratio = half_done;
          code = operation_in_progress;
          description = [];
        }
        ∷ [];
  };
}

upload_status-IsUploadStatus : IsUploadStatus upload_status
upload_status-IsUploadStatus = record {
  version = tt;
  status = in_progress-IsStatus;
  list_ratio = omega arith;
  count = omega arith;
  loads = (
    record {
      header_filename = plain_abc;
      part_number = plain_xyz;
      ratio = omega arith;
      code = tt;
      description = omega arith;
    },
    tt,
  );
}

decode-encode_upload_status_example :
    (e : List ℕ) × (UploadStatusFile.encode big_endian upload_status ≡ ok e)
    × (UploadStatusFile.decode big_endian upload_status e ≡ ok upload_status)
decode-encode_upload_status_example =
    decode-encode_upload_status big_endian big_endian-RawDataLaws upload_status upload_status
      upload_status-IsUploadStatus
