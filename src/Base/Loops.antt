-- ===== src/Base/Loops.antt =====
-- The two loops that every protocol file is made of: the elements of a list, written one after the
-- other to the end of a buffer, and a counted loop that reads them back.
use Prim.Native.Nat.{ℕ, zero, suc}
use mathlib.Core.Path.{◌≡◌, ap, ◌∙◌}
use mathlib.Core.List.{List, [], ◌∷◌, ◌++◌, append-nil, append_assoc}
use arinc_615a_cli_tool_suit.Base.Lists.{length, All}
use arinc_615a_cli_tool_suit.Base.Results.{Result, ok, ◌>>=◌}

module _ {ℓ} {A : Type ℓ} where
  -- `for ( const auto &item : items ) rawData.insert( rawData.end(), ... )`
  unfoldable pub encode_many : (A → Result (List ℕ)) → List A → List ℕ → Result (List ℕ)
  encode_many encode_item [] raw_data = ok raw_data
  encode_many encode_item (a ∷ items) raw_data = do
    encoded ← encode_item a
    encode_many encode_item items (raw_data ++ encoded)

  -- `for ( index = 0; index < count; ++index ) items.emplace_back( ... )`
  unfoldable pub decode_many :
      (List ℕ → Result (List ℕ × A)) → ℕ → List A → List ℕ → Result (List ℕ × List A)
  decode_many decode_item zero items remaining = ok (remaining, items)
  decode_many decode_item (suc count) items remaining = do
    (remaining', a) ← decode_item remaining
    decode_many decode_item count (items ++ a ∷ []) remaining'

-- An encoder writes `a` as `bytes`, and the decoder reads them back and leaves what follows.
pub record Codes {ℓ} {A : Type ℓ} (encode : A → Result (List ℕ))
    (decode : List ℕ → Result (List ℕ × A)) (a : A) : Type ℓ where
  pub bytes : List ℕ
  pub writes : encode a ≡ ok bytes
  pub reads : (rest : List ℕ) → decode (bytes ++ rest) ≡ ok (rest, a)

-- The two loops are inverse where the encoder and the decoder of an item are.
module _ {ℓ} {A : Type ℓ} (encode : A → Result (List ℕ))
    (decode : List ℕ → Result (List ℕ × A)) where
  unfoldable pub encodings : (items : List A) → All (Codes encode decode) items → List ℕ
  encodings [] cs = []
  encodings (a ∷ items) (c, cs) = c.bytes ++ encodings items cs

  pub encode_many-encodings :
      (items : List A) (cs : All (Codes encode decode) items) (raw_data : List ℕ)
      → encode_many encode items raw_data ≡ ok (raw_data ++ encodings items cs)
  unfolding encode_many encodings
  encode_many-encodings [] cs raw_data = rw append-nil
  encode_many-encodings (a ∷ items) (c, cs) raw_data = rw c.writes (
      encode_many-encodings items cs (raw_data ++ c.bytes)
      ∙ ap ok (append_assoc raw_data c.bytes _))

  pub decode_many-encodings :
      (items : List A) (cs : All (Codes encode decode) items) (before : List A) (rest : List ℕ)
      → decode_many decode (length items) before (encodings items cs ++ rest)
        ≡ ok (rest, before ++ items)
  unfolding decode_many encodings
  decode_many-encodings [] cs before rest = rw append-nil
  decode_many-encodings (a ∷ items) (c, cs) before rest =
      rw (append_assoc, c.reads)
        (decode_many-encodings items cs (before ++ a ∷ []) rest
          ∙ ap (λ (l : List A). ok (rest, l)) (append_assoc before (a ∷ []) items))

module _ {ℓ} {A : Type ℓ} {encode : A → Result (List ℕ)} {decode : List ℕ → Result (List ℕ × A)}
    {a : A} where
  pub reads_all : (c : Codes encode decode a) → decode c.bytes ≡ ok ([], a)
  reads_all c = rw append-nil at (c.reads [])
