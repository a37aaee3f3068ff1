-- ===== src/Files/Items/Counted.antt =====
-- A count of 16 bits and as many items, as they stand on the wire.
use arinc_615a_cli_tool_suit.Base.{
  All, List, [], append-nil, arith, decode_many, length, length-append, ok, ℕ, ◌*◌, ◌++◌, ◌^◌, ◌≡◌,
  ◌≤◌,
}
use arinc_615a_cli_tool_suit.Files.Items.{
  ItemCodec, decode_items_lem, items_wire, length-items_wire,
}
use arinc_615a_cli_tool_suit.RawData.{RawDataLaws, RawDataOps, u16}

module _ (raw : RawDataOps) (laws : RawDataLaws raw) {A : Type 0} (codec : ItemCodec A) where
  abbrev pub counted_wire : (items : List A) → All codec.IsItem items → List ℕ
  counted_wire items h = raw.int_bytes u16 (length items) ++ items_wire codec items h

  -- With items of at most 1024 bytes the file stays far below the range of its size field.
  pub counted_bounds :
      (items : List A) (h : All codec.IsItem items)
      → length items ≤ 65535
      → codec.max_size ≤ 1024
      → (2 ≤ length (counted_wire items h)) × (length (counted_wire items h) ≤ 2 ^ 26)
  counted_bounds items h count small =
      let total : codec.max_size * length items ≤ 1024 * 65535 = grind arith in
      omega (
        arith,
        length-append (raw.int_bytes u16 (length items)) (items_wire codec items h),
        laws.length-int_bytes u16 (length items),
        length-items_wire codec items h,
      )

  -- Reading the items, where nothing stands behind them.
  pub decode_items_end :
      (items : List A) (h : All codec.IsItem items) (before : List A)
      → decode_many codec.decode_item (length items) before (items_wire codec items h)
        ≡ ok ([], before ++ items)
  decode_items_end items h before = rw append-nil at (decode_items_lem codec items h before [])
