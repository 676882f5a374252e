-- ===== src/Values.antt =====
-- Values of type interface{}, and the floating-point operations that the program uses of Go.
pub mod Decimal
pub mod Coerce
pub mod Hex
pub mod Samples
mod Tests
use multiple_protocol_contro.Common.{Bool, List, Option, Text, false, none, refl, some, true, ℕ}
use multiple_protocol_contro.Common.{◌+◌, ◌<◌, ◌^◌, ◌≡◌, ◌≤◌}
use multiple_protocol_contro.Common.Int.{FitsSigned, FitsUnsigned, ℤ}

-- Go's float32 and float64, which the language here has not: two types with the conversions,
-- tests and text operations of the source. `to_int64 f` is `int64(f)`, `is_integral f` is
-- `f == math.Trunc(f)`, `beyond_exact f` is `math.Abs(f) > 1<<53`, and `parse` is
-- `strconv.ParseFloat(s, 64)`, with none for its error.
pub record Floats : Type 1 where
  pub F32 : Type 0
  pub F64 : Type 0
  pub widen : F32 → F64
  pub narrow : F64 → F32
  pub of_int : ℤ → F64
  pub to_int64 : F64 → ℤ
  pub to_uint64 : F64 → ℕ
  pub is_zero : F64 → Bool
  pub is_below_zero : F64 → Bool
  pub is_nan : F64 → Bool
  pub is_inf : F64 → Bool
  pub is_integral : F64 → Bool
  pub beyond_exact : F64 → Bool
  pub parse : Text → Option F64
  pub bits32 : F32 → ℕ
  pub of_bits32 : ℕ → F32
  pub bits64 : F64 → ℕ
  pub of_bits64 : ℕ → F64

-- What the documentation of package math says of bit patterns, and Go of conversions in range.
pub record FloatLaws (fl : Floats) : Type 0 where
  pub bits32_range : (x : fl.F32) → fl.bits32 x < 2 ^ 32
  pub bits64_range : (x : fl.F64) → fl.bits64 x < 2 ^ 64
  pub of_bits32-bits32 : (x : fl.F32) → fl.of_bits32 (fl.bits32 x) ≡ x
  pub of_bits64-bits64 : (x : fl.F64) → fl.of_bits64 (fl.bits64 x) ≡ x
  pub to_int64_exact :
      (x : fl.F64)
      → fl.is_integral x ≡ true
      → fl.beyond_exact x ≡ false
      → FitsSigned (2 ^ 53 + 1) (fl.to_int64 x)
  pub to_uint64_exact :
      (x : fl.F64)
      → fl.is_integral x ≡ true
      → fl.beyond_exact x ≡ false
      → fl.is_below_zero x ≡ false
      → fl.to_uint64 x ≤ 2 ^ 53

-- The integer types, `int` and `uint` with the 64 bits of the platforms that the program is built for.
pub data IntKind : Type 0 where
  int int8 int16 int32 int64 uint uint8 uint16 uint32 uint64 : IntKind

-- A value of each type that a type switch of the source names: `number` is a json.Number, `bools`
-- a []bool, `items` an []interface{}, and `other` any further type.
mutual
  pub data Value (F32 F64 : Type 0) : Type 0 where
    nil : Value F32 F64
    bool : Bool → Value F32 F64
    integer : IntKind → ℤ → Value F32 F64
    float32 : F32 → Value F32 F64
    float64 : F64 → Value F32 F64
    number : Text → Value F32 F64
    text : Text → Value F32 F64
    bools : List Bool → Value F32 F64
    items : Values F32 F64 → Value F32 F64
    other : Value F32 F64

  pub data Values (F32 F64 : Type 0) : Type 0 where
    done : Values F32 F64
    item : Value F32 F64 → Values F32 F64 → Values F32 F64

abbrev pub ValueOf : Floats → Type 0
ValueOf fl = Value fl.F32 fl.F64

abbrev pub ValuesOf : Floats → Type 0
ValuesOf fl = Values fl.F32 fl.F64

-- Whether `n` is a value of the integer type.
abbrev pub InRange : IntKind → ℤ → Type 0
InRange int n = FitsSigned (2 ^ 63) n
InRange int8 n = FitsSigned (2 ^ 7) n
InRange int16 n = FitsSigned (2 ^ 15) n
InRange int32 n = FitsSigned (2 ^ 31) n
InRange int64 n = FitsSigned (2 ^ 63) n
InRange uint n = FitsUnsigned (2 ^ 64) n
InRange uint8 n = FitsUnsigned (2 ^ 8) n
InRange uint16 n = FitsUnsigned (2 ^ 16) n
InRange uint32 n = FitsUnsigned (2 ^ 32) n
InRange uint64 n = FitsUnsigned (2 ^ 64) n

-- `panic` is a run-time panic of Go. What is not an error carries its value; an error keeps the reason and not Go's message.
pub data Error : Type 0 where
  bad_number out_of_range negative unsupported_type not_integer not_finite : Error
  bad_bool bad_text : Error
  address_overflow wrong_length empty_payload unsupported_function : Error
  short_frame short_payload bit_range crc_mismatch device_mismatch function_mismatch : Error
  address_mismatch quantity_mismatch zero_quantity no_device io_failed : Error
  bad_bvlc bad_npdu error_response bad_service missing_tag trailing_bytes bad_tag : Error

pub data Result {ℓ} (A : Type ℓ) : Type ℓ where
  ok : A → Result A
  err : Error → Result A
  panic : Result A

infixl 5 ◌>>=◌
abbrev pub ◌>>=◌ {ℓ κ} : {A : Type ℓ} {B : Type κ} → Result A → (A → Result B) → Result B
panic >>= next = panic
err why >>= next = err why
ok value >>= next = next value

-- A check before the rest of the body.
infixl 5 ◌>>◌
abbrev pub ◌>>◌ {ℓ} : {B : Type ℓ} → Result (Unit {0}) → Result B → Result B
check >> body = check >>= λ passed. body

-- `if !test { return err }`
abbrev pub require : Bool → Error → Result (Unit {0})
require true e = ok tt
require false e = err e

abbrev pub of_option {ℓ} : {A : Type ℓ} → Option A → Error → Result A
of_option none e = err e
of_option (some a) e = ok a

pub ok-injective : {A : Type 0} {a b : A} → ok a ≡ ok b → a ≡ b
ok-injective e = cc

-- Inversion of a guarded result.
pub require-ok :
    {B : Type 0} (test : Bool) (e : Error) {x b : B}
    → (require test e >> ok x) ≡ ok b
    → (test ≡ true) × (b ≡ x)
require-ok true e h = (refl, cc)
require-ok false e h = cc

pub map-ok :
    {A B : Type 0} (r : Result A) (g : A → B) {b : B}
    → (r >>= λ a. ok (g a)) ≡ ok b
    → (a : A) × (r ≡ ok a) × (b ≡ g a)
map-ok (ok a) g h = (a, refl, cc)
map-ok (err e) g h = cc
map-ok panic g h = cc

-- Inversion of a bind that succeeds, and of a guard before it.
pub of_option-ok :
    {A : Type 0} (o : Option A) (e : Error) {a : A} → of_option o e ≡ ok a → o ≡ some a
of_option-ok none e h = cc
of_option-ok (some a) e h = cc

pub >>=-ok :
    {A B : Type 0} (first : Result A) (next : A → Result B) {result : B}
    → (first >>= next) ≡ ok result
    → (value : A) × (first ≡ ok value) × (next value ≡ ok result)
>>=-ok (err why) next h = cc
>>=-ok panic next h = cc
>>=-ok (ok value) next h = (value, refl, h)

pub require_then :
    {B : Type 0} (test : Bool) (e : Error) (m : Result B) {b : B}
    → (require test e >> m) ≡ ok b
    → (test ≡ true) × (m ≡ ok b)
require_then true e m h = (refl, h)
require_then false e m h = cc
