-- ===== src/Protocol/DataTypes/Canonical.antt =====
-- What Canonical returns is one of the canonical names, and its own canonical name.
use multiple_protocol_contro.Common.{Bool, Bool-cases, In, List, Text, [], and_true, ap, false}
use multiple_protocol_contro.Common.{inl, inr, lower, refl, some, sym, text_eq, text_eq→eq}
use multiple_protocol_contro.Common.{to_lower, trim_space, true, ◌&&◌, ◌∷◌, ◌≡◌}
use multiple_protocol_contro.Protocol.DataTypes.{aliases, canonical, find_key}
use multiple_protocol_contro.Values.{Result, err, of_option-ok, ok, panic, unsupported_type}
use mathlib.Core.Path.{subst}

find_key-In :
    (table : List (Text × Text)) (key v : Text)
    → find_key table key ≡ some v
    → (k : Text) × In (k, v) table
unfolding find_key
find_key-In [] key v e = absurd cc
find_key-In ((k, w) ∷ rest) key v e = elim (Bool-cases (text_eq key k)) [
  | inl yes_here ↦ (k, inl (ap (λ u. (k, u)) (cc (rw yes_here at e))))
  | inr not_here ↦ let (k', m) = find_key-In rest key v (rw not_here at e) in (k', inr m)
]

is_fixed : Text → Result Text → Bool
is_fixed v (ok t) = text_eq t v
is_fixed v (err e) = false
is_fixed v panic = false

is_fixed→ok : (v : Text) (r : Result Text) → is_fixed v r ≡ true → r ≡ ok v
unfolding is_fixed
is_fixed→ok v (ok t) h = ap ok (text_eq→eq t v h)
is_fixed→ok v (err e) h = cc
is_fixed→ok v panic h = cc

-- Each name of a table is its own canonical name, and passes a test.
all_fixed : List (Text × Text) → Bool
unfolding is_fixed
all_fixed [] = true
all_fixed ((k, v) ∷ rest) = is_fixed v (canonical v) && all_fixed rest

all_fixed-In :
    (table : List (Text × Text)) (k v : Text)
    → all_fixed table ≡ true
    → In (k, v) table
    → canonical v ≡ ok v
unfolding all_fixed
all_fixed-In [] k v h m = absurd m
all_fixed-In ((k', v') ∷ rest) k v h (inl e) =
    let (first, _) = and_true (is_fixed v' (canonical v')) (all_fixed rest) h in
    subst (λ u. canonical u ≡ ok u) (sym (ap (λ q. q.1) e)) (is_fixed→ok v' (canonical v') first)
all_fixed-In ((k', v') ∷ rest) k v h (inr m) =
    let (_, others) = and_true (is_fixed v' (canonical v')) (all_fixed rest) h in
    all_fixed-In rest k v others m

aliases_fixed : all_fixed aliases ≡ true
unfolding all_fixed is_fixed canonical find_key trim_space text_eq lower
aliases_fixed = refl

canonical-found :
    (raw t : Text) → canonical raw ≡ ok t → find_key aliases (to_lower (trim_space raw)) ≡ some t
unfolding canonical
canonical-found raw t h = elim (Bool-cases (text_eq (to_lower (trim_space raw)) [])) [
  | inl no_text ↦ absurd (cc (rw no_text at h))
  | inr has_text ↦
      of_option-ok (find_key aliases (to_lower (trim_space raw))) unsupported_type
        (rw has_text at h)
]

-- A canonical name is its own canonical name: validation changes a data type once.
pub canonical_twice : (raw t : Text) → canonical raw ≡ ok t → canonical t ≡ ok t
canonical_twice raw t h =
    let (k, m) = find_key-In aliases (to_lower (trim_space raw)) t (canonical-found raw t h) in
    all_fixed-In aliases k t aliases_fixed m
