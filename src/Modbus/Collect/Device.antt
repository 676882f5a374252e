-- ===== src/Modbus/Collect/Device.antt =====
-- A device whose registers hold `mem`, as the Modbus protocol describes its answer to a read of
-- holding or input registers. It is the environment of the collector and models no code.
use multiple_protocol_contro.Common.{All, List, [], ap, arith, drop, false, length, length-append}
use multiple_protocol_contro.Common.{ltb, refl, suc, sym, take, take-append, true, zero, ℕ, ◌%◌}
use multiple_protocol_contro.Common.{◌*◌, ◌++◌, ◌+◌, ◌-◌, ◌/◌, ◌<◌, ◌∷◌, ◌≡◌, ◌≤◌}
use multiple_protocol_contro.Modbus.Crc.{IsByte, append_crc, verify_crc}
use multiple_protocol_contro.Modbus.Crc.Detect.{verify_crc-append_crc}
use multiple_protocol_contro.Modbus.Decode.{payload_of}
use multiple_protocol_contro.Values.{ok}
use native.Mathlib.Nat.{add-zero, sub-zero}

-- The contents of `n` registers from `start` on, high byte first.
unfoldable pub image : (ℕ → ℕ) → ℕ → ℕ → List ℕ
image mem start zero = []
image mem start (suc n) = mem start / 256 % 256 ∷ mem start % 256 ∷ image mem (suc start) n

unfoldable pub respond_registers : ℕ → ℕ → (ℕ → ℕ) → ℕ → ℕ → List ℕ
respond_registers device fc mem start n = append_crc (device ∷ fc ∷ (n * 2) ∷ image mem start n)

pub length-image : (mem : ℕ → ℕ) (start n : ℕ) → length (image mem start n) ≡ n * 2
unfolding image
length-image mem start zero = omega arith
length-image mem start (suc n) = omega (arith, length-image mem (suc start) n)

pub image-IsByte : (mem : ℕ → ℕ) (start n : ℕ) → All IsByte (image mem start n)
unfolding image
image-IsByte mem start zero = tt
image-IsByte mem start (suc n) = (omega arith, (omega arith, image-IsByte mem (suc start) n))

take-image :
    (mem : ℕ → ℕ) (start n m : ℕ) → m ≤ n → take (m * 2) (image mem start n) ≡ image mem start m
unfolding image
take-image mem start n zero h = refl
take-image mem start zero (suc m) h = absurd (omega arith)
take-image mem start (suc n) (suc m) h =
    let e : suc m * 2 ≡ suc (suc (m * 2)) = omega arith in
    rw (e, take-image mem (suc start) n m (omega arith))

drop-image :
    (mem : ℕ → ℕ) (start n k : ℕ)
    → k ≤ n
    → drop (k * 2) (image mem start n) ≡ image mem (start + k) (n - k)
unfolding image
drop-image mem start n zero h = rw (add-zero, sub-zero)
drop-image mem start zero (suc k) h = absurd (omega arith)
drop-image mem start (suc n) (suc k) h =
    let e : suc k * 2 ≡ suc (suc (k * 2)) = omega arith in
    let f : start + suc k ≡ suc start + k = omega arith in
    let g : suc n - suc k ≡ n - k = omega arith in
    rw (e, f, g, drop-image mem (suc start) n k (omega arith))

-- The bytes of `m` registers at a distance `k` inside an image.
pub slice-image :
    (mem : ℕ → ℕ) (start n k m : ℕ)
    → k + m ≤ n
    → take (m * 2) (drop (k * 2) (image mem start n)) ≡ image mem (start + k) m
slice-image mem start n k m h =
    rw (drop-image mem start n k (omega arith)) (take-image mem (start + k) (n - k) m (omega arith))

payload_of-cut :
    (a b c x y : ℕ) (l : List ℕ)
    → c ≡ length l
    → payload_of (a ∷ b ∷ c ∷ (l ++ (x ∷ y ∷ []))) ≡ ok l
unfolding payload_of
payload_of-cut a b c x y l e =
    let total : length (l ++ (x ∷ y ∷ [])) ≡ c + 2 = omega (arith, length-append l (x ∷ y ∷ [])) in
    let long : ltb (suc (suc (suc (c + 2)))) 5 ≡ false = ground arith in
    let whole : ltb (suc (suc (suc (c + 2)))) (3 + c + 2) ≡ false = ground arith in
    rw (total, long, whole) (rw e (ap ok (take-append l (x ∷ y ∷ []))))

-- The payload that the collector cuts out of the answer.
pub payload_of-respond :
    (device fc : ℕ) (mem : ℕ → ℕ) (start n : ℕ)
    → payload_of (respond_registers device fc mem start n) ≡ ok (image mem start n)
unfolding payload_of respond_registers append_crc
payload_of-respond device fc mem start n =
    payload_of-cut device fc (n * 2) _ _ (image mem start n) (sym (length-image mem start n))

pub verify_crc-respond :
    (device fc : ℕ) (mem : ℕ → ℕ) (start n : ℕ)
    → device < 256
    → fc < 256
    → n * 2 < 256
    → verify_crc (respond_registers device fc mem start n) ≡ true
unfolding respond_registers
verify_crc-respond device fc mem start n d f h =
    verify_crc-append_crc (device ∷ fc ∷ (n * 2) ∷ image mem start n)
      (d, (f, (h, image-IsByte mem start n)))
