-- ===== src/Files/Header.antt =====
-- lib/arinc_615a/files/ProtocolFile.cpp: the header of every protocol file, its size and version.
pub mod Laws
use arinc_615a_cli_tool_suit.Base.{
  List, Result, data_too_small, err, if◌then◌else◌, invalid_version, leb, length, length_differs,
  ok, require, ℕ, ◌%◌, ◌++◌, ◌==◌, ◌>>=◌, ◌^◌, ◌>>◌,
}
use arinc_615a_cli_tool_suit.RawData.{RawDataOps, u16, u32}
use arinc_615a_cli_tool_suit.Status.{Arinc615aVersion, arinc_615a_2, arinc_615a_34, version_value}

abbrev pub header_size : ℕ
header_size = 6

-- The switch over `Arinc615aVersion{ protocolVersion }`: ARINC 615A-1 is not supported.
unfoldable pub protocol_version : ℕ → Result Arinc615aVersion
protocol_version value =
    if value == 0x4133
    then ok arinc_615a_2
    else if value == 0x4134
    then ok arinc_615a_34
    else err invalid_version

module _ (raw : RawDataOps) where
  -- `insertHeader`: the first six bytes of `raw_data` are written over.
  unfoldable pub insert_header : Arinc615aVersion → List ℕ → Result (List ℕ)
  insert_header version raw_data = do
    (size, next_data) ← raw.set_int u32 raw_data (length raw_data % 2 ^ 32)
    (version_bytes, rest) ← raw.set_int u16 next_data (version_value version)
    ok (size ++ (version_bytes ++ rest))

  -- `decodeHeader`: the new value of `protocolVersionV`, and what follows the header.
  unfoldable pub decode_header : List ℕ → Result (List ℕ × Arinc615aVersion)
  decode_header raw_data = do
    require (leb header_size (length raw_data)) data_too_small
    (remaining_data, length_field) ← raw.get_int u32 raw_data
    require (length_field == length raw_data) length_differs
    (remaining_data', value) ← raw.get_int u16 remaining_data
    version ← protocol_version value
    ok (remaining_data', version)
