-- ===== src/Target/UploadOperation/Ready.antt =====
-- The states of the upload operation whose status can be sent, and what keeps them.
use arinc_615a_cli_tool_suit.Base.{
  All, Bool-cases, List, [], arith, inl, inr, length, suc, ℕ, ◌+◌, ◌≤◌,
}
use arinc_615a_cli_tool_suit.Files.Header.Laws.{IsSupported}
use arinc_615a_cli_tool_suit.Files.Ratio.{Ratio}
use arinc_615a_cli_tool_suit.Files.Ratio.Laws.{IsRatio}
use arinc_615a_cli_tool_suit.Files.Strings.Laws.{IsPlain}
use arinc_615a_cli_tool_suit.Files.UploadStatusFile.RoundTrip.{IsLoadStatus}
use arinc_615a_cli_tool_suit.Information.{Status, UploadLoadStatus, UploadStatus}
use arinc_615a_cli_tool_suit.Information.Operations.{
  add_load, new_load, set_load_status, upload_load,
}
use arinc_615a_cli_tool_suit.Information.Operations.Updates.{All-map, update_found, update_new}
use arinc_615a_cli_tool_suit.Status.{
  FinalStatus, IsTransmitted, StatusCode, operation_accepted, status_code_of_final,
}
use arinc_615a_cli_tool_suit.Target.Operation.Pending.{
  IsPending, empty-IsPlain, final-IsTransmitted, progress-IsTransmitted,
}
use arinc_615a_cli_tool_suit.Target.Operation.State.{is_part_final, progress_code}
use arinc_615a_cli_tool_suit.Target.UploadOperation.{TargetUpload}
use arinc_615a_cli_tool_suit.Target.UploadOperation.Loads.{
  finish_load, load_accepted, load_finished, load_in_progress, loads_finished,
}

pub record IsReadyLoads (budget : ℕ) (s : UploadStatus) : Type 0 where
  pub pending : IsPending s.status
  pub list_ratio : IsRatio s.list_ratio
  pub loads : All IsLoadStatus s.loads
  pub spare : length s.loads + budget ≤ 65535

pub record IsReadyUpload (budget : ℕ) (s : TargetUpload) : Type 0 where
  pub version : IsSupported s.target_base.protocol_version_v
  pub ready : IsReadyLoads budget s.status_v

pub IsReady-weaken : (n : ℕ) (s : UploadStatus) → IsReadyLoads (suc n) s → IsReadyLoads n s
IsReady-weaken n s h = record {
  pending = h.pending;
  list_ratio = h.list_ratio;
  loads = h.loads;
  spare = omega (arith, h.spare);
}

pub with_status-IsReady :
    (n : ℕ) (s : UploadStatus) (status : Status)
    → IsReadyLoads (suc n) s
    → IsPending status
    → IsReadyLoads n (record s { status = status })
with_status-IsReady n s status h p = record {
  pending = p;
  list_ratio = h.list_ratio;
  loads = h.loads;
  spare = omega (arith, h.spare);
}

-- The load is one that can be sent after a change of its state.
set_load_status-IsLoadStatus :
    (r : Ratio) (c : StatusCode) (d : List ℕ) (load : UploadLoadStatus)
    → IsPlain load.header_filename
    → IsPlain load.part_number
    → IsRatio r
    → IsTransmitted c
    → IsPlain d
    → IsLoadStatus (set_load_status r c d load)
unfolding set_load_status
set_load_status-IsLoadStatus r c d load h n k t p = record {
  header_filename = h;
  part_number = n;
  ratio = k;
  code = t;
  description = p;
}

with_loads-IsReady :
    (n : ℕ) (s : UploadStatus) (loads : List UploadLoadStatus)
    → IsReadyLoads (suc n) s
    → All IsLoadStatus loads × (length loads ≤ suc (length s.loads))
    → IsReadyLoads n (record s { loads = loads })
with_loads-IsReady n s loads h a = record {
  pending = h.pending;
  list_ratio = h.list_ratio;
  loads = a.0;
  spare = omega (arith, h.spare, a.1);
}

pub load_accepted-IsReady :
    (n : ℕ) (h p : List ℕ) (s : UploadStatus)
    → IsPlain h
    → IsPlain p
    → IsReadyLoads (suc n) s
    → IsReadyLoads n (load_accepted h p s)
unfolding load_accepted add_load new_load
load_accepted-IsReady n h p s a b r = with_loads-IsReady n s _ r (
    update_new IsLoadStatus (set_load_status (record { value = 0 }) operation_accepted [])
      (λ load k.
        set_load_status-IsLoadStatus _ _ _ load k.header_filename k.part_number (omega arith) tt
          empty-IsPlain)
      (new_load h p) s.loads
      (set_load_status-IsLoadStatus _ _ _ (new_load h p) a b (omega arith) tt empty-IsPlain)
      r.loads)

pub load_in_progress-IsReady :
    (n : ℕ) (h : List ℕ) (ratio : Ratio) (d : List ℕ) (s : UploadStatus)
    → IsPlain h
    → IsRatio ratio
    → IsPlain d
    → IsReadyLoads (suc n) s
    → IsReadyLoads n (load_in_progress h ratio d s)
unfolding load_in_progress upload_load new_load
load_in_progress-IsReady n h ratio d s p k q r = with_loads-IsReady n s _ r (
    update_found IsLoadStatus (set_load_status ratio (progress_code d) d)
      (λ load l.
        set_load_status-IsLoadStatus _ _ _ load l.header_filename l.part_number k
          (progress-IsTransmitted d) q)
      (λ (l : UploadLoadStatus). l.header_filename) (new_load h []) s.loads
      (set_load_status-IsLoadStatus _ _ _ (new_load h []) p empty-IsPlain k
        (progress-IsTransmitted d) q)
      r.loads)

finished-IsLoadStatus :
    (status : FinalStatus) (d : List ℕ) (load : UploadLoadStatus)
    → IsPlain d
    → IsLoadStatus load
    → IsLoadStatus (set_load_status load.ratio (status_code_of_final status) d load)
finished-IsLoadStatus status d load q l =
    set_load_status-IsLoadStatus _ _ _ load l.header_filename l.part_number l.ratio
      (final-IsTransmitted status) q

pub load_finished-IsReady :
    (n : ℕ) (h : List ℕ) (status : FinalStatus) (d : List ℕ) (s : UploadStatus)
    → IsPlain h
    → IsPlain d
    → IsReadyLoads (suc n) s
    → IsReadyLoads n (load_finished h status d s)
unfolding load_finished upload_load new_load
load_finished-IsReady n h status d s p q r = with_loads-IsReady n s _ r (
    update_found IsLoadStatus
      (λ load. set_load_status load.ratio (status_code_of_final status) d load)
      (λ load l. finished-IsLoadStatus status d load q l)
      (λ (l : UploadLoadStatus). l.header_filename) (new_load h []) s.loads
      (set_load_status-IsLoadStatus _ _ _ (new_load h []) p empty-IsPlain (omega arith)
        (final-IsTransmitted status) q)
      r.loads)

finish_load-IsLoadStatus :
    (status : FinalStatus) (d : List ℕ) (load : UploadLoadStatus)
    → IsPlain d
    → IsLoadStatus load
    → IsLoadStatus (finish_load status d load)
unfolding finish_load
finish_load-IsLoadStatus status d load q l = elim (Bool-cases (is_part_final load.code)) [
  | inl e ↦ rw e l
  | inr e ↦ rw e (finished-IsLoadStatus status d load q l)
]

pub loads_finished-IsReady :
    (n : ℕ) (status : FinalStatus) (d : List ℕ) (s : UploadStatus)
    → IsPlain d
    → IsReadyLoads (suc n) s
    → IsReadyLoads n (loads_finished status d s)
unfolding loads_finished
loads_finished-IsReady n status d s q r =
    let all =
      All-map IsLoadStatus (finish_load status d) s.loads
        (λ load l. finish_load-IsLoadStatus status d load q l) r.loads in
    with_loads-IsReady n s _ r (all.0, omega (arith, all.1))
