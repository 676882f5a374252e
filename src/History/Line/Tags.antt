-- ===== src/History/Line/Tags.antt =====
-- The tags of a line, read back.
use multiple_protocol_contro.Common.{All, List, Option, Text, []}
use multiple_protocol_contro.Common.{false}
use multiple_protocol_contro.Common.{if◌then◌else◌, none, some}
use multiple_protocol_contro.Common.{suc, zero, ℕ, ◌==◌}
use multiple_protocol_contro.Common.{◌∷◌, ◌≡◌}
use multiple_protocol_contro.History.Escape.{comma, equals}
use multiple_protocol_contro.History.Escape.Read.{IsPlainText, read_value}

-- The key of a tag, up to its `=`.
read_key : Text → Option (Text × Text)
read_key [] = none
read_key (c ∷ s) =
    if c == equals
    then some ([], s)
    else elim (read_key s) [ none ↦ none | some (k, rest) ↦ some (c ∷ k, rest) ]

more_tags :
    (Text → Option (List (Text × Text) × Text))
    → Text × Text
    → Text
    → Option (List (Text × Text) × Text)
more_tags again tag [] = some (tag ∷ [], [])
more_tags again tag (c ∷ s) =
    let later = again s in
    if c == comma
    then elim later [ none ↦ none | some (tags, rest) ↦ some (tag ∷ tags, rest) ]
    else some (tag ∷ [], c ∷ s)

after_key :
    (Text → Option (List (Text × Text) × Text))
    → Option (Text × Text)
    → Option (List (Text × Text) × Text)
after_key again none = none
after_key again (some (k, t)) = more_tags again (k, (read_value t).0) (read_value t).1

-- A tag set of at most so many tags, up to the blank after it.
pub read_tags : ℕ → Text → Option (List (Text × Text) × Text)
read_tags zero s = none
read_tags (suc n) s = let again = read_tags n in after_key again (read_key s)

-- A key without `=`, and a value without a backslash and a newline.
abbrev pub IsPlain : Text × Text → Type 0
IsPlain tag = All (λ c. (c == equals) ≡ false) tag.0 × IsPlainText tag.1

abbrev PlainKey : Text × Text → Type 0
PlainKey tag = All (λ c. (c == equals) ≡ false) tag.0

-- A value without a backslash and a newline.
abbrev pub PlainValue : Text × Text → Type 0
PlainValue tag = IsPlainText tag.1
