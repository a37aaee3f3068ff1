-- ===== src/Files/StateFields/RoundTrip.antt =====
-- The state fields are read back as they were written.
use arinc_615a_cli_tool_suit.Base.{
  List, append_assoc, arith, length, length-append, ok, replicate, ℕ, ◌++◌, ◌+◌, ◌≡◌, ◌≤◌,
}
use arinc_615a_cli_tool_suit.Files.Buffers.{append_three_lem, length-u16, start_with_lem}
use arinc_615a_cli_tool_suit.Files.Header.{header_size}
use arinc_615a_cli_tool_suit.Files.Ratio.{Ratio}
use arinc_615a_cli_tool_suit.Files.Ratio.Laws.{IsRatio, ratio_Codes, ratio_size}
use arinc_615a_cli_tool_suit.Files.StateFields.{decode_state, encode_state}
use arinc_615a_cli_tool_suit.Files.Strings.Laws.{string_Codes, string_bounds}
use arinc_615a_cli_tool_suit.Information.{Status}
use arinc_615a_cli_tool_suit.Information.WellFormed.{IsStatus}
use arinc_615a_cli_tool_suit.RawData.{RawDataLaws, RawDataOps, u16}
use arinc_615a_cli_tool_suit.Status.{code_value}
use arinc_615a_cli_tool_suit.Status.Conversions.{code_value_bound, status_code-code_value}

module _ (raw : RawDataOps) (laws : RawDataLaws raw) where
  -- The fields behind the status code and the description.
  pub counters_wire : Status → List ℕ → List ℕ
  counters_wire s rest =
      raw.int_bytes u16 s.counter
      ++ (raw.int_bytes u16 s.exception_timer ++ (raw.int_bytes u16 s.estimated_time ++ rest))

  pub state_wire : (s : Status) → IsStatus s → (r : Ratio) → IsRatio r → List ℕ
  state_wire s h r k =
      raw.int_bytes u16 (code_value s.code)
      ++ ((string_Codes raw laws s.description h.description.text h.description.short).bytes
          ++ counters_wire s (ratio_Codes raw laws r k).bytes)

  length-counters_wire :
      (s : Status) (rest : List ℕ) → length (counters_wire s rest) ≡ 6 + length rest
  unfolding counters_wire
  length-counters_wire s rest =
      let a = raw.int_bytes u16 s.counter in
      let b = raw.int_bytes u16 s.exception_timer in
      let c = raw.int_bytes u16 s.estimated_time in
      omega (
        arith,
        length-append a (b ++ (c ++ rest)),
        length-append b (c ++ rest),
        length-append c rest,
        length-u16 raw laws s.counter,
        length-u16 raw laws s.exception_timer,
        length-u16 raw laws s.estimated_time,
      )

  pub length-state_wire :
      (s : Status) (h : IsStatus s) (r : Ratio) (k : IsRatio r)
      → (12 ≤ length (state_wire s h r k)) × (length (state_wire s h r k) ≤ 266)
  unfolding state_wire
  length-state_wire s h r k =
      let text = string_Codes raw laws s.description h.description.text h.description.short in
      let percent = (ratio_Codes raw laws r k).bytes in
      omega (
        arith,
        length-append (raw.int_bytes u16 (code_value s.code))
            (text.bytes ++ counters_wire s percent),
        length-append text.bytes (counters_wire s percent),
        length-counters_wire s percent,
        ratio_size raw laws r k,
        length-u16 raw laws (code_value s.code),
        string_bounds raw laws s.description h.description.text h.description.short,
      )

  pub encode_state_lem :
      (s : Status) (h : IsStatus s) (r : Ratio) (k : IsRatio r)
      → encode_state raw s r ≡ ok (replicate header_size 0 ++ state_wire s h r k)
  unfolding encode_state state_wire counters_wire
  encode_state_lem s h r k =
      let text = string_Codes raw laws s.description h.description.text h.description.short in
      let start = replicate header_size 0 ++ raw.int_bytes u16 (code_value s.code) in
      rw
        (
          start_with_lem raw laws (code_value s.code),
          text.writes,
          append_three_lem raw laws (start ++ text.bytes) s.counter s.exception_timer
              s.estimated_time,
          (ratio_Codes raw laws r k).writes,
        )
        (simp append_assoc)

  pub decode_state_lem :
      (s : Status) (h : IsStatus s) (r : Ratio) (k : IsRatio r) (rest : List ℕ)
      → decode_state raw (state_wire s h r k ++ rest) ≡ ok (rest, (s, r))
  unfolding decode_state state_wire counters_wire
  decode_state_lem s h r k rest =
      let text = string_Codes raw laws s.description h.description.text h.description.short in
      let percent = ratio_Codes raw laws r k in
      let behind = percent.bytes ++ rest in
      let time = raw.int_bytes u16 s.estimated_time ++ behind in
      let timer = raw.int_bytes u16 s.exception_timer ++ time in
      let counter = raw.int_bytes u16 s.counter ++ timer in
      simp append_assoc (
        rw (
          laws.get_int_lem u16 (code_value s.code) (text.bytes ++ counter)
              (code_value_bound s.code),
          status_code-code_value s.code h.code,
          text.reads counter,
          laws.get_int_lem u16 s.counter timer h.counter,
          laws.get_int_lem u16 s.exception_timer time h.exception_timer,
          laws.get_int_lem u16 s.estimated_time behind h.estimated_time,
          percent.reads rest,
        ))
