-- ===== src/Base/Results.antt =====
-- Exceptions as values. A constructor of `Error` stands for one `throw` of the sources, by the text
-- that it carries; `helper_error` is whatever the helper library throws.
use mathlib.Core.Path.{◌≡◌, refl, subst}
use mathlib.Core.Bool.{Bool, true, false}
use mathlib.Core.Option.{some}
use arinc_615a_cli_tool_suit.Base.Tests.{if◌then◌else◌}

pub data Error : Type 0 where
  -- files/String.cpp
  invalid_start_and_end string_length_inconsistent string_not_terminated string_too_long : Error
  -- files/Ratio.cpp, information/Ratio.cpp
  ratio_size_invalid ratio_not_a_number ratio_out_of_range : Error
  -- files/ProtocolFile.cpp and the protocol files
  data_too_small length_differs invalid_version file_too_small more_data_than_expected : Error
  too_many_items user_data_too_big user_data_length : Error
  -- information/InitializationResponse.cpp
  description_not_empty : Error
  -- StatusCode.cpp
  invalid_status_code : Error
  -- find/packets/Packet.cpp
  packet_too_small packet_not_terminated invalid_opcode terminator_missing no_parameter : Error
  -- `std::vector::at`
  out_of_range : Error
  -- tftp/ErrorMessage.cpp
  value_out_of_range : Error
  helper_error : Error

-- `catch ( const Arinc615aException & )`: the exceptions of the helper library and of the standard
-- library pass it.
abbrev pub is_caught : Error → Bool
is_caught helper_error = false
is_caught out_of_range = false
is_caught _ = true

pub data Result {ℓ} (A : Type ℓ) : Type ℓ where
  err : Error → Result A
  ok : A → Result A

-- A call of which the exception is not caught.
abbrev pub is_uncaught {ℓ} : {A : Type ℓ} → Result A → Bool
is_uncaught (err e) = if is_caught e then false else true
is_uncaught (ok a) = false

-- `if ( !condition ) throw`.
abbrev pub require : Bool → Error → Result (Unit {0})
require false thrown = err thrown
require true thrown = ok tt

pub ok_injective {ℓ} : {A : Type ℓ} {a b : A} → ok a ≡ ok b → a ≡ b
ok_injective h = cc

-- The rest of a function after a call that may throw.
infixl 5 ◌>>=◌
abbrev pub ◌>>=◌ {ℓ κ} : {A : Type ℓ} {B : Type κ} → Result A → (A → Result B) → Result B
err thrown >>= rest = err thrown
ok value >>= rest = rest value

-- The rest of a function after a guard.
infixl 5 ◌>>◌
abbrev pub ◌>>◌ {κ} : {B : Type κ} → Result (Unit {0}) → Result B → Result B
check >> rest = check >>= λ _. rest

-- Where the rest of a function ends normally, the call before it has given a value.
pub >>=-eq-ok {ℓ κ} :
    {A : Type ℓ} {B : Type κ} (call : Result A) (rest : A → Result B) {result : B}
    → (call >>= rest) ≡ ok result
    → (value : A) × (call ≡ ok value) × (rest value ≡ ok result)
>>=-eq-ok (err thrown) rest ends = cc
>>=-eq-ok (ok value) rest ends = (value, refl, ends)

pub require-eq-ok : (b : Bool) (e : Error) {u : Unit {0}} → require b e ≡ ok u → b ≡ true
require-eq-ok true e h = refl
require-eq-ok false e h = cc

-- What a computation promises of its value, where it gives one.
pub data Ensures {ℓ κ} {A : Type ℓ} (P : A → Type κ) (r : Result A) : Type (ℓ ⊔ κ) where
  promise : ((a : A) → r ≡ ok a → P a) → Ensures P r

pub Ensures-eq-ok {ℓ κ} :
    {A : Type ℓ} {P : A → Type κ} {r : Result A} {a : A} → Ensures P r → r ≡ ok a → P a
Ensures-eq-ok {a} (promise p) e = p a e

pub Ensures-ok {ℓ κ} : {A : Type ℓ} {P : A → Type κ} {a : A} → P a → Ensures P (ok a)
Ensures-ok {P} p = promise (λ b e. subst P (ok_injective e) p)

-- The rules for a step, for a guard, and for a branch.
pub Ensures-step {ℓ κ ι} :
    {A : Type ℓ} {B : Type κ} {P : B → Type ι} (m : Result A) {f : A → Result B}
    → ((a : A) → m ≡ ok a → Ensures P (f a))
    → Ensures P (m >>= f)
Ensures-step m {f} h =
    promise (λ b e. let (a, got, rest) = >>=-eq-ok m f e in Ensures-eq-ok (h a got) rest)

pub Ensures-require {ℓ κ} :
    {B : Type ℓ} {P : B → Type κ} (test : Bool) (e : Error) {r : Result B}
    → (test ≡ true → Ensures P r)
    → Ensures P (require test e >> r)
Ensures-require true e h = h refl
Ensures-require false e h = promise (λ b e. cc)

pub Ensures-if {ℓ κ} :
    {B : Type ℓ} {P : B → Type κ} (test : Bool) {r s : Result B}
    → (test ≡ true → Ensures P r)
    → (test ≡ false → Ensures P s)
    → Ensures P (if test then r else s)
Ensures-if true h k = h refl
Ensures-if false h k = k refl

pub Ensures-map {ℓ κ ι} :
    {B : Type ℓ} {P : B → Type κ} {Q : B → Type ι} {r : Result B}
    → Ensures P r
    → ((b : B) → P b → Q b)
    → Ensures Q r
Ensures-map (promise p) h = promise (λ b e. h b (p b e))

-- The computation gives a value or an exception that is caught. The rules are those for a step, for a
-- guard, and for a branch.
pub record IsContained {ℓ} {A : Type ℓ} (r : Result A) : Type 0 where
  pub contained : is_uncaught r ≡ false

pub IsContained-ok {ℓ} : {A : Type ℓ} {r : Result A} {a : A} → r ≡ ok a → IsContained r
IsContained-ok e = record { contained = rw e refl }

pub IsContained-step {ℓ κ} :
    {A : Type ℓ} {B : Type κ} {m : Result A} {f : A → Result B}
    → IsContained m
    → ((a : A) → m ≡ ok a → IsContained (f a))
    → IsContained (m >>= f)
IsContained-step {m = err e} h k = record { contained = h.contained }
IsContained-step {m = ok a} h k = k a refl

pub IsContained-require {ℓ} :
    {B : Type ℓ} (test : Bool) (e : Error) {r : Result B}
    → is_caught e ≡ true
    → (test ≡ true → IsContained r)
    → IsContained (require test e >> r)
IsContained-require true e c h = h refl
IsContained-require false e c h = record { contained = rw c refl }

pub IsContained-if {ℓ} :
    {B : Type ℓ} (test : Bool) {r s : Result B}
    → (test ≡ true → IsContained r)
    → (test ≡ false → IsContained s)
    → IsContained (if test then r else s)
IsContained-if true h k = h refl
IsContained-if false h k = k refl

pub some_injective {ℓ} : {A : Type ℓ} {a b : A} → some a ≡ some b → a ≡ b
some_injective h = cc
