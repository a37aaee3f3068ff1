-- ===== src/Target/DownloadOperation/Ready.antt =====
-- The states of the download operations whose status can be sent, and what keeps them.
use arinc_615a_cli_tool_suit.Base.{
  All, Bool-cases, List, [], arith, inl, inr, length, suc, ℕ, ◌+◌, ◌≤◌,
}
use arinc_615a_cli_tool_suit.Files.DownloadStatusFile.RoundTrip.{IsFileStatus}
use arinc_615a_cli_tool_suit.Files.Header.Laws.{IsSupported}
use arinc_615a_cli_tool_suit.Files.Ratio.Laws.{IsRatio}
use arinc_615a_cli_tool_suit.Files.Strings.Laws.{IsPlain}
use arinc_615a_cli_tool_suit.Information.{DownloadFileStatus, DownloadStatus, Status}
use arinc_615a_cli_tool_suit.Information.Operations.{download_file, new_file, set_file_status}
use arinc_615a_cli_tool_suit.Information.Operations.Updates.{
  All-map, update_at, update_found, update_new,
}
use arinc_615a_cli_tool_suit.Status.{
  FinalStatus, IsTransmitted, StatusCode, operation_accepted, status_code_of_final,
}
use arinc_615a_cli_tool_suit.Target.DownloadOperation.{TargetDownload}
use arinc_615a_cli_tool_suit.Target.DownloadOperation.Parts.{
  add_file, file_accepted, file_finished, file_in_progress, files_finished, finish_file,
}
use arinc_615a_cli_tool_suit.Target.Operation.Pending.{
  IsPending, empty-IsPlain, final-IsTransmitted, progress-IsTransmitted,
}
use arinc_615a_cli_tool_suit.Target.Operation.State.{is_part_final, progress_code}

pub record IsReadyFiles (budget : ℕ) (s : DownloadStatus) : Type 0 where
  pub pending : IsPending s.status
  pub list_ratio : IsRatio s.list_ratio
  pub files : All IsFileStatus s.files
  pub spare : length s.files + budget ≤ 65535

pub record IsReadyDownload (budget : ℕ) (s : TargetDownload) : Type 0 where
  pub version : IsSupported s.target_base.protocol_version_v
  pub ready : IsReadyFiles budget s.status_v

pub IsReadyFiles-weaken : (n : ℕ) (s : DownloadStatus) → IsReadyFiles (suc n) s → IsReadyFiles n s
IsReadyFiles-weaken n s h = record {
  pending = h.pending;
  list_ratio = h.list_ratio;
  files = h.files;
  spare = omega (arith, h.spare);
}

pub with_download_status-IsReady :
    (n : ℕ) (s : DownloadStatus) (status : Status)
    → IsReadyFiles (suc n) s
    → IsPending status
    → IsReadyFiles n (record s { status = status })
with_download_status-IsReady n s status h p = record {
  pending = p;
  list_ratio = h.list_ratio;
  files = h.files;
  spare = omega (arith, h.spare);
}

set_file_status-IsFileStatus :
    (c : StatusCode) (d : List ℕ) (file : DownloadFileStatus)
    → IsPlain file.filename
    → IsTransmitted c
    → IsPlain d
    → IsFileStatus (set_file_status c d file)
unfolding set_file_status
set_file_status-IsFileStatus c d file h t p = record { filename = h; code = t; description = p }

with_files-IsReady :
    (n : ℕ) (s : DownloadStatus) (files : List DownloadFileStatus)
    → IsReadyFiles (suc n) s
    → All IsFileStatus files × (length files ≤ suc (length s.files))
    → IsReadyFiles n (record s { files = files })
with_files-IsReady n s files h a = record {
  pending = h.pending;
  list_ratio = h.list_ratio;
  files = a.0;
  spare = omega (arith, h.spare, a.1);
}

pub file_accepted-IsReady :
    (n : ℕ) (name : List ℕ) (s : DownloadStatus)
    → IsPlain name
    → IsReadyFiles (suc n) s
    → IsReadyFiles n (file_accepted name s)
unfolding file_accepted add_file new_file
file_accepted-IsReady n name s p r = with_files-IsReady n s _ r (
    update_new IsFileStatus (set_file_status operation_accepted [])
      (λ file k. set_file_status-IsFileStatus _ _ file k.filename tt empty-IsPlain) (new_file name)
      s.files (set_file_status-IsFileStatus _ _ (new_file name) p tt empty-IsPlain) r.files)

-- The file with a name takes a state, and is added before where there is none.
set_file-IsReady :
    (n : ℕ) (name : List ℕ) (c : StatusCode) (d : List ℕ) (s : DownloadStatus)
    → IsPlain name
    → IsTransmitted c
    → IsPlain d
    → IsReadyFiles (suc n) s
    → let outcome = download_file name s in
      IsReadyFiles n
        (record outcome.0 { files = update_at outcome.1 (set_file_status c d) outcome.0.files })
unfolding download_file new_file
set_file-IsReady n name c d s p t q r = with_files-IsReady n s _ r (
    update_found IsFileStatus (set_file_status c d)
      (λ file k. set_file_status-IsFileStatus c d file k.filename t q)
      (λ (f : DownloadFileStatus). f.filename) (new_file name) s.files
      (set_file_status-IsFileStatus c d (new_file name) p t q) r.files)

pub file_in_progress-IsReady :
    (n : ℕ) (name d : List ℕ) (s : DownloadStatus)
    → IsPlain name
    → IsPlain d
    → IsReadyFiles (suc n) s
    → IsReadyFiles n (file_in_progress name d s)
unfolding file_in_progress
file_in_progress-IsReady n name d s p q r =
    set_file-IsReady n name (progress_code d) d s p (progress-IsTransmitted d) q r

pub file_finished-IsReady :
    (n : ℕ) (name : List ℕ) (f : FinalStatus) (d : List ℕ) (s : DownloadStatus)
    → IsPlain name
    → IsPlain d
    → IsReadyFiles (suc n) s
    → IsReadyFiles n (file_finished name f d s)
unfolding file_finished
file_finished-IsReady n name f d s p q r =
    set_file-IsReady n name (status_code_of_final f) d s p (final-IsTransmitted f) q r

finish_file-IsFileStatus :
    (f : FinalStatus) (d : List ℕ) (file : DownloadFileStatus)
    → IsPlain d
    → IsFileStatus file
    → IsFileStatus (finish_file f d file)
unfolding finish_file
finish_file-IsFileStatus f d file q k = elim (Bool-cases (is_part_final file.code)) [
  | inl e ↦ rw e k
  | inr e ↦ rw e (set_file_status-IsFileStatus _ _ file k.filename (final-IsTransmitted f) q)
]

pub files_finished-IsReady :
    (n : ℕ) (f : FinalStatus) (d : List ℕ) (s : DownloadStatus)
    → IsPlain d
    → IsReadyFiles (suc n) s
    → IsReadyFiles n (files_finished f d s)
unfolding files_finished
files_finished-IsReady n f d s q r =
    let all =
      All-map IsFileStatus (finish_file f d) s.files
        (λ file k. finish_file-IsFileStatus f d file q k) r.files in
    with_files-IsReady n s _ r (all.0, omega (arith, all.1))
