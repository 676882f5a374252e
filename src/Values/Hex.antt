-- ===== src/Values/Hex.antt =====
-- Addresses in decimal or hexadecimal: IsHexString and ParseUintDecHex of pkg/utils/utils.go.
-- strings.HasPrefix and strings.TrimPrefix for a prefix of one or two bytes.
use multiple_protocol_contro.Common.{Bool, Option, Text, [], codes, drop, false, if◌then◌else◌}
use multiple_protocol_contro.Common.{leb, length, ltb, none, some, take, trim_space, true, ℕ}
use multiple_protocol_contro.Common.{◌&&◌, ◌*◌, ◌+◌, ◌-◌, ◌==◌, ◌^◌, ◌||◌, ◌∷◌}
use multiple_protocol_contro.Values.Decimal.{parse_uint}

abbrev pub has_prefix : Text → Text → Bool
has_prefix [] s = true
has_prefix (c ∷ prefix) [] = false
has_prefix (c ∷ prefix) (d ∷ s) = c == d && has_prefix prefix s

unfoldable pub trim_prefix : Text → Text → Text
trim_prefix prefix s = if has_prefix prefix s then drop (length prefix) s else s

-- strings.HasSuffix and strings.TrimSuffix for a suffix of one byte.
abbrev pub ends_in : ℕ → Text → Bool
ends_in c [] = false
ends_in c (d ∷ []) = c == d
ends_in c (d ∷ e ∷ s) = ends_in c (e ∷ s)

unfoldable pub trim_last : ℕ → Text → Text
trim_last c s = if ends_in c s then take (length s - 1) s else s

abbrev pub is_hex_digit : ℕ → Bool
is_hex_digit c =
    (leb b'0' c && leb c b'9') || (leb b'a' c && leb c b'f') || (leb b'A' c && leb c b'F')

abbrev pub all_hex : Text → Bool
all_hex [] = true
all_hex (c ∷ s) = is_hex_digit c && all_hex s

-- `s[2:]` and `s[:len(s)-1]` on what has passed the two tests.
unfoldable pub is_hex_string : Text → Bool
is_hex_string raw =
    let s = trim_space raw in
    let prefixed = has_prefix (codes "0x") s || has_prefix (codes "0X") s in
    let suffixed = ends_in b'h' s || ends_in b'H' s in
    let bare = if prefixed then drop 2 s else s in
    let digits = if suffixed then take (length bare - 1) bare else bare in
    if prefixed || suffixed then all_hex digits else false

abbrev pub hex_value : ℕ → ℕ
hex_value c = if leb c b'9' then c - b'0' else if leb c b'F' then c - b'A' + 10 else c - b'a' + 10

abbrev pub hex_from : ℕ → Text → Option ℕ
hex_from acc [] = some acc
hex_from acc (c ∷ s) =
    let rest = hex_from (acc * 16 + hex_value c) s in if is_hex_digit c then rest else none

abbrev pub hex_digits : Text → Option ℕ
hex_digits [] = none
hex_digits (c ∷ s) = hex_from 0 (c ∷ s)

abbrev pub in_uint64 : Option ℕ → Option ℕ
in_uint64 none = none
in_uint64 (some n) = if ltb n (2 ^ 64) then some n else none

-- The branch that strips the prefixes and suffixes does not strip blanks.
unfoldable pub parse_uint_dec_hex : Text → Option ℕ
parse_uint_dec_hex addr =
    if is_hex_string addr
    then in_uint64 (
        hex_digits (
          trim_last b'H'
            (trim_last b'h' (trim_prefix (codes "0X") (trim_prefix (codes "0x") addr)))))
    else parse_uint addr
