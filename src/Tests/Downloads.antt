-- ===== src/Tests/Downloads.antt =====
-- The download files at concrete data, in network byte order.
use arinc_615a_cli_tool_suit.Base.{List, [], arith, ok, ℕ, ◌∷◌, ◌≡◌}
use arinc_615a_cli_tool_suit.Files.DownloadAnswerFile.{DownloadAnswerFile}
use arinc_615a_cli_tool_suit.Files.DownloadAnswerFile.RoundTrip.{IsDownloadAnswer}
use arinc_615a_cli_tool_suit.Files.DownloadListFile.{DownloadListFile}
use arinc_615a_cli_tool_suit.Files.DownloadListFile.RoundTrip.{IsDownloadList}
use arinc_615a_cli_tool_suit.Files.DownloadRequestFile
use arinc_615a_cli_tool_suit.Files.DownloadRequestFile.{DownloadRequestFile}
use arinc_615a_cli_tool_suit.Files.DownloadRequestFile.RoundTrip.{
  IsDownloadRequest, decode-encode_download_request,
}
use arinc_615a_cli_tool_suit.Files.DownloadStatusFile
use arinc_615a_cli_tool_suit.Files.DownloadStatusFile.{DownloadStatusFile}
use arinc_615a_cli_tool_suit.Files.DownloadStatusFile.RoundTrip.{
  IsDownloadStatus, decode-encode_download_status,
}
use arinc_615a_cli_tool_suit.RawData.BigEndian.{big_endian, big_endian-RawDataLaws}
use arinc_615a_cli_tool_suit.Status.{arinc_615a_2, arinc_615a_34, operation_completed}
use arinc_615a_cli_tool_suit.Tests.Files.{
  half_done, in_progress, in_progress-IsStatus, plain_abc, plain_xyz, text_abc, text_xyz,
}

abbrev download_status : DownloadStatusFile
download_status = record {
  version = arinc_615a_34;
  status = record {
    status = in_progress;
    list_ratio = half_done;
    files = record { filename = text_abc; code = operation_completed; description = [] } ∷ [];
  };
}

download_status-IsDownloadStatus : IsDownloadStatus download_status
download_status-IsDownloadStatus = record {
  version = tt;
  status = in_progress-IsStatus;
  list_ratio = omega arith;
  count = omega arith;
  files = (record { filename = plain_abc; code = tt; description = omega arith }, tt);
}

decode-encode_download_status_example :
    (e : List ℕ) × (DownloadStatusFile.encode big_endian download_status ≡ ok e)
    × (DownloadStatusFile.decode big_endian download_status e ≡ ok download_status)
decode-encode_download_status_example =
    decode-encode_download_status big_endian big_endian-RawDataLaws download_status download_status
      download_status-IsDownloadStatus

abbrev download_list : DownloadListFile
download_list = record {
  version = arinc_615a_2;
  files = record { filename = text_abc; description = text_xyz } ∷ [];
}

download_list-IsDownloadList : IsDownloadList download_list
download_list-IsDownloadList = record {
  version = tt;
  count = omega arith;
  files = (record { filename = plain_abc; description = plain_xyz }, tt);
}

abbrev download_answer : DownloadAnswerFile
download_answer = record { version = arinc_615a_2; files = text_abc ∷ text_xyz ∷ [] }

download_answer-IsDownloadAnswer : IsDownloadAnswer download_answer
download_answer-IsDownloadAnswer = record {
  version = tt;
  count = omega arith;
  files = (plain_abc, (plain_xyz, tt));
}

abbrev download_request : DownloadRequestFile
download_request = record {
  version = arinc_615a_34;
  files = text_abc ∷ [];
  user_defined_data = 1 ∷ 0 ∷ [];
}

download_request-IsDownloadRequest : IsDownloadRequest download_request
download_request-IsDownloadRequest = record {
  version = tt;
  count = omega arith;
  files = (plain_abc, tt);
  user_defined_data = omega arith;
}

decode-encode_download_request_example :
    (e : List ℕ) × (DownloadRequestFile.encode big_endian download_request ≡ ok e)
    × (DownloadRequestFile.decode big_endian DownloadRequestFile.default e ≡ ok download_request)
decode-encode_download_request_example =
    decode-encode_download_request big_endian big_endian-RawDataLaws DownloadRequestFile.default
      download_request download_request-IsDownloadRequest
