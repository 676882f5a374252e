-- ===== src/Modbus/Endian.antt =====
-- Byte orders: `normalizeEndian` and `applyEndian` of
-- internal/protocol/modbusRtu/encodeCommand.go, which internal/collector/modbus.go repeats.
use multiple_protocol_contro.Common.{Bool, List, Text, [], codes, false, length, refl, switch}
use multiple_protocol_contro.Common.{to_upper, trim_space, true, ℕ, ◌∷◌, ◌≡◌}

-- The six names that `normalizeEndian` returns.
pub data Endian : Type 0 where
  abcd dcba badc cdab ab ba : Endian

unfoldable pub normalize_endian : Text → Endian
normalize_endian endian =
    switch
      ((codes "ABCD", abcd)
        ∷ (codes "DCBA", dcba)
        ∷ (codes "BADC", badc)
        ∷ (codes "CDAB", cdab)
        ∷ (codes "AB", ab)
        ∷ (codes "BA", ba)
        ∷ [])
      abcd (to_upper (trim_space endian))

abbrev swaps_pair : Endian → Bool
swaps_pair ba = true
swaps_pair dcba = true
swaps_pair _ = false

swap_pair : Bool → ℕ → ℕ → List ℕ
swap_pair true a b = b ∷ a ∷ []
swap_pair false a b = a ∷ b ∷ []

swap_quad : Endian → ℕ → ℕ → ℕ → ℕ → List ℕ
swap_quad dcba a b c d = d ∷ c ∷ b ∷ a ∷ []
swap_quad badc a b c d = b ∷ a ∷ d ∷ c ∷ []
swap_quad cdab a b c d = c ∷ d ∷ a ∷ b ∷ []
swap_quad _ a b c d = a ∷ b ∷ c ∷ d ∷ []

-- The three loops of the eight-byte case, written out.
swap_octet : Endian → ℕ → ℕ → ℕ → ℕ → ℕ → ℕ → ℕ → ℕ → List ℕ
swap_octet dcba a b c d e f g h = h ∷ g ∷ f ∷ e ∷ d ∷ c ∷ b ∷ a ∷ []
swap_octet badc a b c d e f g h = b ∷ a ∷ d ∷ c ∷ f ∷ e ∷ h ∷ g ∷ []
swap_octet cdab a b c d e f g h = e ∷ f ∷ g ∷ h ∷ a ∷ b ∷ c ∷ d ∷ []
swap_octet _ a b c d e f g h = a ∷ b ∷ c ∷ d ∷ e ∷ f ∷ g ∷ h ∷ []

-- `switch len(out)`: any other length is copied.
unfoldable pub apply_endian : Endian → List ℕ → List ℕ
unfolding swap_pair swap_quad swap_octet
apply_endian o (a ∷ b ∷ []) = swap_pair (swaps_pair o) a b
apply_endian o (a ∷ b ∷ c ∷ d ∷ []) = swap_quad o a b c d
apply_endian o (a ∷ b ∷ c ∷ d ∷ e ∷ f ∷ g ∷ h ∷ []) = swap_octet o a b c d e f g h
apply_endian o bytes = bytes

-- The collector undoes the byte order that the encoder applied, whatever the order and the length.
pub apply_endian_twice :
    (o : Endian) (bytes : List ℕ) → apply_endian o (apply_endian o bytes) ≡ bytes
unfolding apply_endian
apply_endian_twice abcd (a ∷ b ∷ []) = refl
apply_endian_twice dcba (a ∷ b ∷ []) = refl
apply_endian_twice badc (a ∷ b ∷ []) = refl
apply_endian_twice cdab (a ∷ b ∷ []) = refl
apply_endian_twice ab (a ∷ b ∷ []) = refl
apply_endian_twice ba (a ∷ b ∷ []) = refl
apply_endian_twice abcd (a ∷ b ∷ c ∷ d ∷ []) = refl
apply_endian_twice _ (a ∷ b ∷ c ∷ d ∷ []) = refl
apply_endian_twice abcd (a ∷ b ∷ c ∷ d ∷ e ∷ f ∷ g ∷ h ∷ []) = refl
apply_endian_twice _ (a ∷ b ∷ c ∷ d ∷ e ∷ f ∷ g ∷ h ∷ []) = refl
apply_endian_twice o bytes = refl

pub length-apply_endian :
    (o : Endian) (bytes : List ℕ) → length (apply_endian o bytes) ≡ length bytes
unfolding apply_endian
length-apply_endian abcd (a ∷ b ∷ []) = refl
length-apply_endian _ (a ∷ b ∷ []) = refl
length-apply_endian abcd (a ∷ b ∷ c ∷ d ∷ []) = refl
length-apply_endian _ (a ∷ b ∷ c ∷ d ∷ []) = refl
length-apply_endian abcd (a ∷ b ∷ c ∷ d ∷ e ∷ f ∷ g ∷ h ∷ []) = refl
length-apply_endian _ (a ∷ b ∷ c ∷ d ∷ e ∷ f ∷ g ∷ h ∷ []) = refl
length-apply_endian o bytes = refl
