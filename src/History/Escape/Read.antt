-- ===== src/History/Escape/Read.antt =====
-- What InfluxDB reads of an escaped tag value and of an escaped string.
use multiple_protocol_contro.Common.{All, Bool, Bool-cases, Option, Text, [], ap, append-nil}
use multiple_protocol_contro.Common.{append_assoc, arith, false, if◌then◌else◌, inl, inr, none}
use multiple_protocol_contro.Common.{refl, some, true, ℕ, ◌&&◌, ◌++◌, ◌==◌, ◌||◌, ◌∙◌, ◌∷◌, ◌≡◌}
use multiple_protocol_contro.History.Escape.{backslash, blank, comma, escape_by, escape_string}
use multiple_protocol_contro.History.Escape.{escape_tag, is_string_special, is_tag_special, quote}

abbrev pub newline : ℕ
newline = 10

-- A newline ends the whole line, also behind a backslash.
abbrev pub ends_value : ℕ → Bool
ends_value c = c == comma || c == blank || c == newline

-- A tag value, up to the first separator without a backslash or to the end of the line, and what follows.
-- A backslash before any other byte is that byte of the value.
pub read_value : Text → Text × Text
read_value [] = ([], [])
read_value (c ∷ []) = if ends_value c then ([], c ∷ []) else (c ∷ [], [])
read_value (c ∷ d ∷ s) =
    let after = read_value s in
    let plain = read_value (d ∷ s) in
    if c == backslash && is_tag_special d
    then (d ∷ after.0, after.1)
    else if ends_value c
    then ([], c ∷ d ∷ s)
    else (c ∷ plain.0, plain.1)

-- Neither a backslash nor a newline.
abbrev pub is_awkward : ℕ → Bool
is_awkward c = c == backslash || c == newline

abbrev pub IsPlainText : Text → Type 0
IsPlainText s = All (λ c. is_awkward c ≡ false) s

read_value_plain :
    (c : ℕ) (s : Text)
    → is_awkward c ≡ false
    → is_tag_special c ≡ false
    → read_value (c ∷ s) ≡ (c ∷ (read_value s).0, (read_value s).1)
unfolding read_value
read_value_plain c [] h k = ground arith
read_value_plain c (d ∷ s) h k = ground arith

read_value_stop : (c : ℕ) (s : Text) → ends_value c ≡ true → read_value (c ∷ s) ≡ ([], c ∷ s)
unfolding read_value
read_value_stop c [] h = rw h refl
read_value_stop c (d ∷ s) h = ground arith

read_value_escaped :
    (d : ℕ) (s : Text)
    → is_tag_special d ≡ true
    → read_value (backslash ∷ d ∷ s) ≡ (d ∷ (read_value s).0, (read_value s).1)
unfolding read_value
read_value_escaped d s h = rw h refl

escape_tag-cons :
    (a : ℕ) (v : Text)
    → escape_tag (a ∷ v)
      ≡ (if is_tag_special a then backslash ∷ a ∷ escape_tag v else a ∷ escape_tag v)
unfolding escape_tag escape_by
escape_tag-cons a v = refl

-- An escaped value without a backslash and a newline is read as itself, before whatever is read of the rest.
escape_tag_then :
    (v t : Text)
    → IsPlainText v
    → read_value (escape_tag v ++ t) ≡ (v ++ (read_value t).0, (read_value t).1)
escape_tag_then [] t h = unfold escape_tag escape_by in refl
escape_tag_then (a ∷ v) t (ha, h) = elim (Bool-cases (is_tag_special a)) [
  | inl e ↦
      rw (escape_tag-cons a v, e)
        (read_value_escaped a (escape_tag v ++ t) e
          ∙ ap (λ (r : Text × Text). (a ∷ r.0, r.1)) (escape_tag_then v t h))
  | inr e ↦
      rw (escape_tag-cons a v, e)
        (read_value_plain a (escape_tag v ++ t) ha e
          ∙ ap (λ (r : Text × Text). (a ∷ r.0, r.1)) (escape_tag_then v t h))
]

-- A tag value without a backslash and a newline is read back, up to the separator after it.
pub read_value-escape_tag :
    (v rest : Text) (c : ℕ)
    → IsPlainText v
    → ends_value c ≡ true
    → read_value (escape_tag v ++ (c ∷ rest)) ≡ (v, c ∷ rest)
read_value-escape_tag v rest c h k =
    escape_tag_then v (c ∷ rest) h ∙ rw (read_value_stop c rest k, append-nil v) refl

escape_tag-append_backslash :
    (v : Text) → escape_tag (v ++ (backslash ∷ [])) ≡ escape_tag v ++ (backslash ∷ [])
unfolding escape_tag escape_by
escape_tag-append_backslash [] = refl
escape_tag-append_backslash (a ∷ v) =
    let ih = escape_tag-append_backslash v in
    elim (Bool-cases (is_tag_special a)) [
      | inl e ↦ rw e (ap (λ t. backslash ∷ a ∷ t) ih)
      | inr e ↦ rw e (ap (λ t. a ∷ t) ih)
    ]

-- A value that ends in a backslash takes the comma after it, and the next tag with it, into the value.
pub read_value_swallows :
    (v rest : Text)
    → IsPlainText v
    → read_value (escape_tag (v ++ (backslash ∷ [])) ++ (comma ∷ rest))
      ≡ (v ++ (comma ∷ (read_value rest).0), (read_value rest).1)
read_value_swallows v rest h =
    rw (escape_tag-append_backslash v, append_assoc (escape_tag v) (backslash ∷ []) (comma ∷ rest))
      (escape_tag_then v (backslash ∷ comma ∷ rest) h
        ∙ ap (λ (r : Text × Text). (v ++ r.0, r.1)) (read_value_escaped comma rest refl))

push : ℕ → Option (Text × Text) → Option (Text × Text)
push c none = none
push c (some (s, rest)) = some (c ∷ s, rest)

-- A string field behind its opening quote, up to the closing one.
pub read_string : Text → Option (Text × Text)
unfolding push
read_string [] = none
read_string (c ∷ []) = if c == quote then some ([], []) else none
read_string (c ∷ d ∷ s) =
    let after = read_string s in
    let plain = read_string (d ∷ s) in
    if c == backslash && is_string_special d
    then push d after
    else if c == quote
    then some ([], d ∷ s)
    else push c plain

read_string_plain :
    (c : ℕ) (s : Text) → is_string_special c ≡ false → read_string (c ∷ s) ≡ push c (read_string s)
unfolding read_string push
read_string_plain c [] h = ground arith
read_string_plain c (d ∷ s) h = ground arith

read_string_escaped :
    (d : ℕ) (s : Text)
    → is_string_special d ≡ true
    → read_string (backslash ∷ d ∷ s) ≡ push d (read_string s)
unfolding read_string
read_string_escaped d s h = rw h refl

read_string_stop : (s : Text) → read_string (quote ∷ s) ≡ some ([], s)
unfolding read_string
read_string_stop [] = refl
read_string_stop (d ∷ s) = refl

escape_string-cons :
    (a : ℕ) (v : Text)
    → escape_string (a ∷ v)
      ≡ (if is_string_special a then backslash ∷ a ∷ escape_string v else a ∷ escape_string v)
unfolding escape_string escape_by
escape_string-cons a v = refl

pushed :
    (a : ℕ) (t v rest : Text)
    → read_string t ≡ some (v, rest)
    → push a (read_string t) ≡ some (a ∷ v, rest)
unfolding push
pushed a t v rest e = rw e refl

-- Every string that is written as a field is read back.
pub read_string-escape_string :
    (v rest : Text) → read_string (escape_string v ++ (quote ∷ rest)) ≡ some (v, rest)
read_string-escape_string [] rest = unfold escape_string escape_by in read_string_stop rest
read_string-escape_string (a ∷ v) rest =
    let t = escape_string v ++ (quote ∷ rest) in
    let ih : push a (read_string t) ≡ some (a ∷ v, rest) =
      pushed a t v rest (read_string-escape_string v rest) in
    elim (Bool-cases (is_string_special a)) [
      | inl e ↦ rw (escape_string-cons a v, e) (read_string_escaped a t e ∙ ih)
      | inr e ↦ rw (escape_string-cons a v, e) (read_string_plain a t e ∙ ih)
    ]
