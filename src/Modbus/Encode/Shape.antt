-- ===== src/Modbus/Encode/Shape.antt =====
-- What a successful encoding looks like.
use multiple_protocol_contro.Common.{All, Bool, List, Text, arith, false, inl, inr, ltb, ltb→lt}
use multiple_protocol_contro.Common.{refl, true, ℕ, ◌+◌, ◌<◌, ◌^◌, ◌≡◌, ◌⊎◌}
use multiple_protocol_contro.Common.Int.{FitsSigned, fits_signed, fits_signed→FitsSigned, to_word}
use multiple_protocol_contro.Common.Int.{ℤ}
use multiple_protocol_contro.Modbus.Bytes.{put_uint16, put_uint32, put_uint64}
use multiple_protocol_contro.Modbus.Crc.{IsByte}
use multiple_protocol_contro.Modbus.Encode.{command_type, encode_register_value, explicit_bytes}
use multiple_protocol_contro.Modbus.Encode.{int_bytes, legacy_bytes, word_bytes}
use multiple_protocol_contro.Modbus.Endian.{Endian, abcd, apply_endian}
use multiple_protocol_contro.Modbus.Registers.{RegisterType, bool, double, float, float32}
use multiple_protocol_contro.Modbus.Registers.{float64, int16, int32, int64, short, uint16}
use multiple_protocol_contro.Modbus.Registers.{uint32, uint64, unknown, ushort}
use multiple_protocol_contro.Values.{Floats, Result, ValueOf, err, map-ok, ok, out_of_range}
use multiple_protocol_contro.Values.{panic, require-ok, ◌>>=◌}
use multiple_protocol_contro.Values.Coerce.{coerce_exact_int64, coerce_exact_uint64}
use multiple_protocol_contro.Values.Coerce.{coerce_float64, coerce_int64, coerce_uint64}
use multiple_protocol_contro.Values.Coerce.{legacy_json_number_value}

module _ (fl : Floats) where
  pub int_bytes-ok :
      (half : ℕ) (put : ℕ → List ℕ) (r : Result ℤ) {bytes : List ℕ}
      → int_bytes fl half put r ≡ ok bytes
      → (n : ℤ) × (r ≡ ok n) × FitsSigned half n × (bytes ≡ put (to_word (half + half) n))
  unfolding int_bytes
  int_bytes-ok half put (ok n) h =
      let (fits, e) = require-ok (fits_signed half n) out_of_range h in
      (n, refl, fits_signed→FitsSigned half n fits, e)
  int_bytes-ok half put (err e) h = cc
  int_bytes-ok half put panic h = cc

  pub word_bytes-ok :
      (bound : ℕ) (put : ℕ → List ℕ) (r : Result ℕ) {bytes : List ℕ}
      → word_bytes fl bound put r ≡ ok bytes
      → (n : ℕ) × (r ≡ ok n) × (n < bound) × (bytes ≡ put n)
  unfolding word_bytes
  word_bytes-ok bound put (ok n) h =
      let (fits, e) = require-ok (ltb n bound) out_of_range h in (n, refl, ltb→lt n bound fits, e)
  word_bytes-ok bound put (err e) h = cc
  word_bytes-ok bound put panic h = cc

-- One, two or four registers written in big-endian order.
abbrev pub IsPut : List ℕ → Type 0
IsPut bytes =
    ((w : ℕ) × (bytes ≡ put_uint16 w))
    ⊎ (((w : ℕ) × (bytes ≡ put_uint32 w)) ⊎ ((w : ℕ) × (bytes ≡ put_uint64 w)))

one : {bytes : List ℕ} (w : ℕ) → bytes ≡ put_uint16 w → IsPut bytes
one w e = inl (w, e)

two : {bytes : List ℕ} (w : ℕ) → bytes ≡ put_uint32 w → IsPut bytes
two w e = inr (inl (w, e))

four : {bytes : List ℕ} (w : ℕ) → bytes ≡ put_uint64 w → IsPut bytes
four w e = inr (inr (w, e))

module _ (fl : Floats) where
  from_int16 :
      (r : Result ℤ) {bytes : List ℕ} → int_bytes fl (2 ^ 15) put_uint16 r ≡ ok bytes → IsPut bytes
  from_int16 r h = let (n, e, f, b) = int_bytes-ok fl (2 ^ 15) put_uint16 r h in one _ b

  from_int32 :
      (r : Result ℤ) {bytes : List ℕ} → int_bytes fl (2 ^ 31) put_uint32 r ≡ ok bytes → IsPut bytes
  from_int32 r h = let (n, e, f, b) = int_bytes-ok fl (2 ^ 31) put_uint32 r h in two _ b

  from_word16 :
      (r : Result ℕ) {bytes : List ℕ} → word_bytes fl (2 ^ 16) put_uint16 r ≡ ok bytes → IsPut bytes
  from_word16 r h = let (n, e, f, b) = word_bytes-ok fl (2 ^ 16) put_uint16 r h in one n b

  from_word32 :
      (r : Result ℕ) {bytes : List ℕ} → word_bytes fl (2 ^ 32) put_uint32 r ≡ ok bytes → IsPut bytes
  from_word32 r h = let (n, e, f, b) = word_bytes-ok fl (2 ^ 32) put_uint32 r h in two n b

  from_float :
      (r : Result fl.F64) {bytes : List ℕ}
      → (r >>= λ f. ok (put_uint32 (fl.bits32 (fl.narrow f)))) ≡ ok bytes
      → IsPut bytes
  from_float r h = let (f, e, b) = map-ok r (λ f. put_uint32 (fl.bits32 (fl.narrow f))) h in two _ b

  from_double :
      (r : Result fl.F64) {bytes : List ℕ}
      → (r >>= λ f. ok (put_uint64 (fl.bits64 f))) ≡ ok bytes
      → IsPut bytes
  from_double r h = let (f, e, b) = map-ok r (λ f. put_uint64 (fl.bits64 f)) h in four _ b

  from_word64 :
      (r : Result ℕ) {bytes : List ℕ} → (r >>= λ n. ok (put_uint64 n)) ≡ ok bytes → IsPut bytes
  from_word64 r h = let (n, e, b) = map-ok r put_uint64 h in four n b

  from_int64 :
      (r : Result ℤ) {bytes : List ℕ}
      → (r >>= λ n. ok (put_uint64 (to_word (2 ^ 64) n))) ≡ ok bytes
      → IsPut bytes
  from_int64 r h = let (n, e, b) = map-ok r (λ n. put_uint64 (to_word (2 ^ 64) n)) h in four _ b

  explicit_bytes-IsPut :
      (t : RegisterType) (v : ValueOf fl) {bytes : List ℕ}
      → explicit_bytes fl t v ≡ ok bytes
      → IsPut bytes
  unfolding explicit_bytes
  explicit_bytes-IsPut short v h = from_int16 (coerce_int64 fl v) h
  explicit_bytes-IsPut int16 v h = from_int16 (coerce_exact_int64 fl v) h
  explicit_bytes-IsPut ushort v h = from_word16 (coerce_uint64 fl v) h
  explicit_bytes-IsPut uint16 v h = from_word16 (coerce_exact_uint64 fl v) h
  explicit_bytes-IsPut int32 v h = from_int32 (coerce_exact_int64 fl v) h
  explicit_bytes-IsPut uint32 v h = from_word32 (coerce_exact_uint64 fl v) h
  explicit_bytes-IsPut float v h = from_float (coerce_float64 fl v) h
  explicit_bytes-IsPut float32 v h = from_float (coerce_float64 fl v) h
  explicit_bytes-IsPut double v h = from_double (coerce_float64 fl v) h
  explicit_bytes-IsPut float64 v h = from_double (coerce_float64 fl v) h
  explicit_bytes-IsPut int64 v h = from_int64 (coerce_exact_int64 fl v) h
  explicit_bytes-IsPut uint64 v h = from_word64 (coerce_exact_uint64 fl v) h
  explicit_bytes-IsPut bool v h = cc
  explicit_bytes-IsPut unknown v h = cc

  legacy_bytes-IsPut :
      (t : RegisterType) (v : ValueOf fl) {bytes : List ℕ}
      → legacy_bytes fl t v ≡ ok bytes
      → IsPut bytes
  unfolding legacy_bytes
  legacy_bytes-IsPut short v h = from_int16 (coerce_int64 fl v) h
  legacy_bytes-IsPut int16 v h = from_int16 (coerce_int64 fl v) h
  legacy_bytes-IsPut ushort v h = from_word16 (coerce_uint64 fl v) h
  legacy_bytes-IsPut uint16 v h = from_word16 (coerce_uint64 fl v) h
  legacy_bytes-IsPut int32 v h = from_int32 (coerce_int64 fl v) h
  legacy_bytes-IsPut uint32 v h = from_word32 (coerce_uint64 fl v) h
  legacy_bytes-IsPut float v h = from_float (coerce_float64 fl v) h
  legacy_bytes-IsPut double v h = from_double (coerce_float64 fl v) h
  legacy_bytes-IsPut int64 v h = from_int64 (coerce_int64 fl v) h
  legacy_bytes-IsPut uint64 v h = from_word64 (coerce_uint64 fl v) h
  legacy_bytes-IsPut _ v h = cc

  apply_endian-IsByte :
      (o : Endian) (bytes : List ℕ) → IsPut bytes → All IsByte (apply_endian o bytes)
  unfolding apply_endian put_uint16 put_uint32 put_uint64
  apply_endian-IsByte abcd bytes (inl (w, e)) = rw e (omega arith)
  apply_endian-IsByte _ bytes (inl (w, e)) = rw e (omega arith)
  apply_endian-IsByte abcd bytes (inr (inl (w, e))) = rw e (omega arith)
  apply_endian-IsByte _ bytes (inr (inl (w, e))) = rw e (omega arith)
  apply_endian-IsByte abcd bytes (inr (inr (w, e))) = rw e (omega arith)
  apply_endian-IsByte _ bytes (inr (inr (w, e))) = rw e (omega arith)

  -- Every register value that is encoded is a list of bytes.
  pub encode_register_value-IsByte :
      (v : ValueOf fl) (data_type : Text) (o : Endian) (explicit : Bool) {bytes : List ℕ}
      → encode_register_value fl v data_type o explicit ≡ ok bytes
      → All IsByte bytes
  unfolding encode_register_value
  encode_register_value-IsByte v dt o true h =
      let (raw, e, b) = map-ok (explicit_bytes fl (command_type dt) v) (apply_endian o) h in
      rw b (apply_endian-IsByte o raw (explicit_bytes-IsPut (command_type dt) v e))
  encode_register_value-IsByte v dt o false h =
      let old = legacy_json_number_value fl v in
      let (raw, e, b) = map-ok (legacy_bytes fl (command_type dt) old) (apply_endian o) h in
      rw b (apply_endian-IsByte o raw (legacy_bytes-IsPut (command_type dt) old e))
