-- ===== src/Values/Tests.antt =====
-- Coercions at concrete values.
use multiple_protocol_contro.Common.{codes, contains_any, refl, trim_space, ◌-◌, ◌^◌, ◌≡◌}
use multiple_protocol_contro.Values.{ValueOf, number, ok}
use multiple_protocol_contro.Values.Coerce.{coerce_exact_uint64, exact_uint64_from_text}
use multiple_protocol_contro.Values.Decimal.{parse_uint}
use multiple_protocol_contro.Values.Samples.{two_floats}

abbrev large : ValueOf two_floats
large = number (codes "18446744073709551615")

large_read : coerce_exact_uint64 two_floats large ≡ ok (2 ^ 64 - 1)
unfolding coerce_exact_uint64 exact_uint64_from_text parse_uint contains_any trim_space
large_read = refl
