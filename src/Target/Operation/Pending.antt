-- ===== src/Target/Operation/Pending.antt =====
-- The statuses that the target can send.
use arinc_615a_cli_tool_suit.Base.{List, [], arith, refl, ℕ, ◌<◌, ◌∷◌, ◌≡◌}
use arinc_615a_cli_tool_suit.Files.Strings.Laws.{IsPlain}
use arinc_615a_cli_tool_suit.Information.{Status}
use arinc_615a_cli_tool_suit.Information.Operations.{increment_counter, set_code, set_status}
use arinc_615a_cli_tool_suit.Information.WellFormed.{IsStatus}
use arinc_615a_cli_tool_suit.RawData.{modulus, u16}
use arinc_615a_cli_tool_suit.Status.{
  FinalStatus, IsTransmitted, StatusCode, final_completed, invalid_status, operation_accepted,
  status_code_of_final,
}
use arinc_615a_cli_tool_suit.Target.Operation.State.{
  force_acceptance, progress_code, set_target_status,
}

-- The code with which a status is sent.
abbrev pub sent_code : StatusCode → StatusCode
sent_code invalid_status = operation_accepted
sent_code c = c

pub record IsPending (s : Status) : Type 0 where
  pub counter : s.counter < modulus u16
  pub exception_timer : s.exception_timer < modulus u16
  pub estimated_time : s.estimated_time < modulus u16
  pub code : IsTransmitted (sent_code s.code)
  pub description : IsPlain s.description

pub empty-IsPlain : IsPlain []
empty-IsPlain = record { text = tt; short = omega arith }

force_code :
    (c : StatusCode) (s : Status) → s.code ≡ c → IsPending s → IsStatus (force_acceptance s)
unfolding force_acceptance set_code
force_code invalid_status s e h = rw e (record {
  counter = h.counter;
  exception_timer = h.exception_timer;
  estimated_time = h.estimated_time;
  code = tt;
  description = empty-IsPlain;
})
force_code _ s e h = rw e (record {
  counter = h.counter;
  exception_timer = h.exception_timer;
  estimated_time = h.estimated_time;
  code = rw e at h.code;
  description = h.description;
})

pub force_acceptance-IsStatus : (s : Status) → IsPending s → IsStatus (force_acceptance s)
force_acceptance-IsStatus s h = force_code s.code s refl h

sent_code-IsTransmitted : (c : StatusCode) → IsTransmitted c → IsTransmitted (sent_code c)
sent_code-IsTransmitted invalid_status h = tt
sent_code-IsTransmitted _ h = h

pub IsStatus-IsPending : (s : Status) → IsStatus s → IsPending s
IsStatus-IsPending s h = record {
  counter = h.counter;
  exception_timer = h.exception_timer;
  estimated_time = h.estimated_time;
  code = sent_code-IsTransmitted s.code h.code;
  description = h.description;
}

pub set_target_status-IsPending :
    (c : StatusCode) (d : List ℕ) (t : ℕ) (s : Status)
    → IsTransmitted c
    → IsPlain d
    → t < modulus u16
    → IsPending s
    → IsPending (set_target_status c d t s)
unfolding set_target_status set_status
set_target_status-IsPending c d t s k p b h = record {
  counter = h.counter;
  exception_timer = h.exception_timer;
  estimated_time = b;
  code = sent_code-IsTransmitted c k;
  description = p;
}

pub increment_counter-IsPending : (s : Status) → IsStatus s → IsPending (increment_counter s)
unfolding increment_counter
increment_counter-IsPending s h = record {
  counter = omega arith;
  exception_timer = h.exception_timer;
  estimated_time = h.estimated_time;
  code = sent_code-IsTransmitted s.code h.code;
  description = h.description;
}

pub final-IsTransmitted : (f : FinalStatus) → IsTransmitted (status_code_of_final f)
unfolding status_code_of_final
final-IsTransmitted final_completed = tt
final-IsTransmitted _ = tt

pub progress-IsTransmitted : (d : List ℕ) → IsTransmitted (progress_code d)
progress-IsTransmitted [] = tt
progress-IsTransmitted (c ∷ d) = tt
