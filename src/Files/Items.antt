-- ===== src/Files/Items.antt =====
-- A list of items in a protocol file: a 16-bit count, and the items one after the other. The kinds
-- of items (filenames, loads, part numbers, states) are instances of one interface.
pub mod Counted
use arinc_615a_cli_tool_suit.Base.{
  All, All-append, Codes, Ensures, Ensures-eq-ok, Ensures-map, Ensures-ok, Ensures-step, List,
  Result, [], arith, decode_many, decode_many-encodings, encode_many, encode_many-encodings,
  encodings, length, length-append, ok, suc, zero, ℕ, ◌*◌, ◌++◌, ◌+◌, ◌∷◌, ◌≡◌, ◌≤◌,
}

-- An encoder and a decoder that are inverse on well-formed items, of bounded size on the wire.
pub record ItemCodec (A : Type 0) : Type 1 where
  pub encode_item : A → Result (List ℕ)
  pub decode_item : List ℕ → Result (List ℕ × A)
  pub IsItem : A → Type 0
  pub max_size : ℕ
  pub codes : (a : A) → IsItem a → Codes encode_item decode_item a
  pub size : (a : A) (h : IsItem a) → length (codes a h).bytes ≤ max_size

module _ {A : Type 0} (codec : ItemCodec A) where
  unfoldable pub all_codes :
      (items : List A)
      → All codec.IsItem items
      → All (Codes codec.encode_item codec.decode_item) items
  all_codes [] h = tt
  all_codes (a ∷ items) h = (codec.codes a h.0, all_codes items h.1)

  pub items_wire : (items : List A) → All codec.IsItem items → List ℕ
  items_wire items h = encodings codec.encode_item codec.decode_item items (all_codes items h)

  pub length-items_wire :
      (items : List A) (h : All codec.IsItem items)
      → length (items_wire items h) ≤ codec.max_size * length items
  unfolding items_wire encodings all_codes
  length-items_wire [] h = omega arith
  length-items_wire (a ∷ items) h = omega (
    arith,
    length-append (codec.codes a h.0).bytes (items_wire items h.1),
    codec.size a h.0,
    length-items_wire items h.1,
  )

  pub encode_items_lem :
      (items : List A) (h : All codec.IsItem items) (raw_data : List ℕ)
      → encode_many codec.encode_item items raw_data ≡ ok (raw_data ++ items_wire items h)
  unfolding items_wire
  encode_items_lem items h =
      encode_many-encodings codec.encode_item codec.decode_item items (all_codes items h)

  pub decode_items_lem :
      (items : List A) (h : All codec.IsItem items) (before : List A) (rest : List ℕ)
      → decode_many codec.decode_item (length items) before (items_wire items h ++ rest)
        ≡ ok (rest, before ++ items)
  unfolding items_wire
  decode_items_lem items h =
      decode_many-encodings codec.encode_item codec.decode_item items (all_codes items h)

-- What a sound item decoder promises, of every item of a decoded list.
pub decode_many_sound :
    {A : Type 0} (P : A → Type 0) (decode : List ℕ → Result (List ℕ × A))
    → ((d : List ℕ) → Ensures (λ (p : List ℕ × A). P p.1) (decode d))
    → (n : ℕ) (before : List A) (d : List ℕ) → All P before
    → Ensures
        (λ (p : List ℕ × List A). All P p.1 × (length p.1 ≡ length before + n))
        (decode_many decode n before d)
unfolding decode_many
decode_many_sound P decode sound zero before d h = Ensures-ok (h, omega arith)
decode_many_sound P decode sound (suc n) before d h = Ensures-step (decode d) λ p got.
    let item = Ensures-eq-ok (sound d) got in
    Ensures-map
      (decode_many_sound P decode sound n (before ++ p.1 ∷ []) p.0
        (All-append P before (p.1 ∷ []) h (item, tt)))
      (λ q (all, count). (all, omega (arith, length-append before (p.1 ∷ []))))
