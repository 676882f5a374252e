-- ===== src/History/Escape.antt =====
-- The escapes of the line protocol, escapeInfluxTag and escapeInfluxString of
-- internal/collector/history_writer.go, beside readers that follow InfluxDB's description of its line
-- protocol. A strings.Replacer whose old strings are single bytes works byte by byte.
pub mod Read
use multiple_protocol_contro.Common.{Bool, Text, [], if◌then◌else◌, ℕ, ◌==◌, ◌||◌, ◌∷◌}

abbrev pub comma : ℕ
comma = b','

abbrev pub blank : ℕ
blank = b' '

abbrev pub equals : ℕ
equals = b'='

abbrev pub quote : ℕ
quote = b'"'

abbrev pub backslash : ℕ
backslash = b'\\'

abbrev pub is_tag_special : ℕ → Bool
is_tag_special c = c == comma || c == blank || c == equals

abbrev pub is_string_special : ℕ → Bool
is_string_special c = c == backslash || c == quote

-- Each byte that the test picks is preceded by a backslash.
unfoldable pub escape_by : (ℕ → Bool) → Text → Text
escape_by special [] = []
escape_by special (c ∷ s) =
    let rest = escape_by special s in if special c then backslash ∷ c ∷ rest else c ∷ rest

unfoldable pub escape_tag : Text → Text
escape_tag value = escape_by is_tag_special value

unfoldable pub escape_string : Text → Text
escape_string value = escape_by is_string_special value
