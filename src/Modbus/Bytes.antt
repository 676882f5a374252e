-- ===== src/Modbus/Bytes.antt =====
-- Package encoding/binary in big-endian order, on lists of bytes. The readers are none where Go's
-- index or slice expression panics.
use multiple_protocol_contro.Common.{List, Option, [], ap, arith, length, none, refl, some, ℕ}
use multiple_protocol_contro.Common.{◌%◌, ◌*◌, ◌+◌, ◌/◌, ◌<◌, ◌^◌, ◌∷◌, ◌≡◌, ◌≢◌, ◌≤◌}

unfoldable pub put_uint16 : ℕ → List ℕ
put_uint16 v = v / 2 ^ 8 % 256 ∷ v % 256 ∷ []

unfoldable pub put_uint32 : ℕ → List ℕ
put_uint32 v = v / 2 ^ 24 % 256 ∷ v / 2 ^ 16 % 256 ∷ v / 2 ^ 8 % 256 ∷ v % 256 ∷ []

unfoldable pub put_uint64 : ℕ → List ℕ
put_uint64 v =
    v / 2 ^ 56 % 256
    ∷ v / 2 ^ 48 % 256
    ∷ v / 2 ^ 40 % 256
    ∷ v / 2 ^ 32 % 256
    ∷ v / 2 ^ 24 % 256
    ∷ v / 2 ^ 16 % 256
    ∷ v / 2 ^ 8 % 256
    ∷ v % 256
    ∷ []

unfoldable pub uint16_of : List ℕ → Option ℕ
uint16_of (a ∷ b ∷ _) = some (a * 2 ^ 8 + b)
uint16_of _ = none

unfoldable pub uint32_of : List ℕ → Option ℕ
uint32_of (a ∷ b ∷ c ∷ d ∷ _) = some (a * 2 ^ 24 + b * 2 ^ 16 + c * 2 ^ 8 + d)
uint32_of _ = none

unfoldable pub uint64_of : List ℕ → Option ℕ
uint64_of (a ∷ b ∷ c ∷ d ∷ e ∷ f ∷ g ∷ h ∷ _) =
    some
      (a * 2 ^ 56 + b * 2 ^ 48 + c * 2 ^ 40 + d * 2 ^ 32 + e * 2 ^ 24 + f * 2 ^ 16 + g * 2 ^ 8 + h)
uint64_of _ = none

pub uint16_of-put : (v : ℕ) → v < 2 ^ 16 → uint16_of (put_uint16 v) ≡ some v
unfolding uint16_of put_uint16
uint16_of-put v h = ap some (omega arith)

pub uint32_of-put : (v : ℕ) → v < 2 ^ 32 → uint32_of (put_uint32 v) ≡ some v
unfolding uint32_of put_uint32
uint32_of-put v h = ap some (omega arith)

pub uint64_of-put : (v : ℕ) → v < 2 ^ 64 → uint64_of (put_uint64 v) ≡ some v
unfolding uint64_of put_uint64
uint64_of-put v h = ap some (omega arith)

-- The readers answer on enough bytes.
pub uint16_of_enough : (bs : List ℕ) → 2 ≤ length bs → uint16_of bs ≢ none
unfolding uint16_of
uint16_of_enough [] h e = absurd (omega arith)
uint16_of_enough (a ∷ []) h e = absurd (omega arith)
uint16_of_enough (a ∷ b ∷ bs) h e = cc

pub uint32_of_enough : (bs : List ℕ) → 4 ≤ length bs → uint32_of bs ≢ none
unfolding uint32_of
uint32_of_enough [] h e = absurd (omega arith)
uint32_of_enough (a ∷ []) h e = absurd (omega arith)
uint32_of_enough (a ∷ b ∷ []) h e = absurd (omega arith)
uint32_of_enough (a ∷ b ∷ c ∷ []) h e = absurd (omega arith)
uint32_of_enough (a ∷ b ∷ c ∷ d ∷ bs) h e = cc

pub uint64_of_enough : (bs : List ℕ) → 8 ≤ length bs → uint64_of bs ≢ none
unfolding uint64_of
uint64_of_enough [] h e = absurd (omega arith)
uint64_of_enough (a ∷ []) h e = absurd (omega arith)
uint64_of_enough (a ∷ b ∷ []) h e = absurd (omega arith)
uint64_of_enough (a ∷ b ∷ c ∷ []) h e = absurd (omega arith)
uint64_of_enough (a ∷ b ∷ c ∷ d ∷ []) h e = absurd (omega arith)
uint64_of_enough (a ∷ b ∷ c ∷ d ∷ x ∷ []) h e = absurd (omega arith)
uint64_of_enough (a ∷ b ∷ c ∷ d ∷ x ∷ y ∷ []) h e = absurd (omega arith)
uint64_of_enough (a ∷ b ∷ c ∷ d ∷ x ∷ y ∷ z ∷ []) h e = absurd (omega arith)
uint64_of_enough (a ∷ b ∷ c ∷ d ∷ x ∷ y ∷ z ∷ w ∷ bs) h e = cc

pub length-put_uint16 : (v : ℕ) → length (put_uint16 v) ≡ 2
unfolding put_uint16
length-put_uint16 v = refl

pub length-put_uint32 : (v : ℕ) → length (put_uint32 v) ≡ 4
unfolding put_uint32
length-put_uint32 v = refl

pub length-put_uint64 : (v : ℕ) → length (put_uint64 v) ≡ 8
unfolding put_uint64
length-put_uint64 v = refl
