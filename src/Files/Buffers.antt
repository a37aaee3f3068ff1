-- ===== src/Files/Buffers.antt =====
-- How the protocol files fill their buffer: `rawData( HeaderSize + 2U )` with a first field behind
-- the header, and `resize` with the new room at the end filled by `RawData_setInt`.
use arinc_615a_cli_tool_suit.Base.{
  List, Result, [], append-nil, arith, drop, length, ok, replicate, take, ℕ, ◌++◌, ◌+◌, ◌>>=◌, ◌∷◌,
  ◌≡◌,
}
use arinc_615a_cli_tool_suit.Files.Header.{header_size}
use arinc_615a_cli_tool_suit.RawData.{RawDataLaws, RawDataOps, Width, size_of, u16, u32, u8}

module _ (raw : RawDataOps) where
  -- Zeros for the header, and a 16-bit field behind them.
  unfoldable pub start_with : ℕ → Result (List ℕ)
  start_with value =
      let raw_data : List ℕ = replicate (header_size + 2) 0 in
      do
        (field, next_data) ← raw.set_int u16 (drop header_size raw_data) value
        ok (take header_size raw_data ++ (field ++ next_data))

  -- `rawData.resize( rawData.size() + size )` and an integer in the last bytes.
  unfoldable pub append_int : Width → List ℕ → ℕ → Result (List ℕ)
  append_int width raw_data value = do
    (field, next_data) ← raw.set_int width (replicate (size_of width) 0) value
    ok (raw_data ++ (field ++ next_data))

  -- The same for three 16-bit fields.
  unfoldable pub append_three : List ℕ → ℕ → ℕ → ℕ → Result (List ℕ)
  append_three raw_data a b c = do
    (first, next_data) ← raw.set_int u16 (replicate 6 0) a
    (second, next_data') ← raw.set_int u16 next_data b
    (third, next_data'') ← raw.set_int u16 next_data' c
    ok (raw_data ++ (first ++ (second ++ (third ++ next_data''))))

module _ (raw : RawDataOps) (laws : RawDataLaws raw) where
  pub start_with_lem :
      (v : ℕ) → start_with raw v ≡ ok (replicate header_size 0 ++ raw.int_bytes u16 v)
  unfolding start_with
  start_with_lem v = rw (laws.set_int_lem u16 (0 ∷ 0 ∷ []) v (omega arith), append-nil)

  pub append_int_lem :
      (w : Width) (d : List ℕ) (v : ℕ) → append_int raw w d v ≡ ok (d ++ raw.int_bytes w v)
  unfolding append_int
  append_int_lem u8 d v = rw (laws.set_int_lem u8 (0 ∷ []) v (omega arith), append-nil)
  append_int_lem u16 d v = rw (laws.set_int_lem u16 (0 ∷ 0 ∷ []) v (omega arith), append-nil)
  append_int_lem u32 d v =
      rw (laws.set_int_lem u32 (0 ∷ 0 ∷ 0 ∷ 0 ∷ []) v (omega arith), append-nil)

  pub append_three_lem :
      (d : List ℕ) (a b c : ℕ)
      → append_three raw d a b c
        ≡ ok (d ++ (raw.int_bytes u16 a ++ (raw.int_bytes u16 b ++ raw.int_bytes u16 c)))
  unfolding append_three
  append_three_lem d a b c = rw (
    laws.set_int_lem u16 (replicate 6 0) a (omega arith),
    laws.set_int_lem u16 (replicate 4 0) b (omega arith),
    laws.set_int_lem u16 (replicate 2 0) c (omega arith),
    append-nil,
  )

  pub length-u16 : (v : ℕ) → length (raw.int_bytes u16 v) ≡ 2
  length-u16 v = laws.length-int_bytes u16 v
