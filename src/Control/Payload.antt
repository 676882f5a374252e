-- ===== src/Control/Payload.antt =====
-- buildMqttPayload of internal/control/control.go, and the path of parseMqttPayload of
-- internal/conn/mqtt_manager.go, which reads such a payload.
-- A decoded JSON value: an object by its members, or any other value.
use multiple_protocol_contro.Common.{All, Bool, Bool-cases, List, Text, [], ap, arith, codes}
use multiple_protocol_contro.Common.{false, if◌then◌else◌, inl, inr, refl, sym, text_eq}
use multiple_protocol_contro.Common.{text_eq_refl, ℕ, ◌++◌, ◌==◌, ◌∙◌, ◌∷◌, ◌≡◌}
use mathlib.Core.Path.{subst}
use multiple_protocol_contro.Convert.Command.{Scans, normalize_command_value}
use multiple_protocol_contro.Values.{Floats, Result, ValueOf, bad_tag, err, map-ok, missing_tag}
use multiple_protocol_contro.Values.{ok, ◌>>=◌}

mutual
  pub data Json (V : Type 0) : Type 0 where
    scalar : V → Json V
    object : Members V → Json V

  pub data Members (V : Type 0) : Type 0 where
    no_members : Members V
    member : Text → Json V → Members V → Members V

unfoldable pub onto_first : ℕ → List Text → List Text
onto_first c [] = (c ∷ []) ∷ []
onto_first c (part ∷ parts) = (c ∷ part) ∷ parts

-- strings.Split(path, "."): never empty.
unfoldable pub split_path : Text → List Text
split_path [] = [] ∷ []
split_path (c ∷ s) = let rest = split_path s in if c == b'.' then [] ∷ rest else onto_first c rest

-- The parts with a dot between them.
pub join_dots : List Text → Text
join_dots [] = []
join_dots (part ∷ []) = part
join_dots (part ∷ more ∷ parts) = part ++ (b'.' ∷ join_dots (more ∷ parts))

split_path-nonempty :
    (s : Text) → (part : Text) × (parts : List Text) × (split_path s ≡ part ∷ parts)
unfolding split_path onto_first
split_path-nonempty [] = ([], [], refl)
split_path-nonempty (c ∷ s) =
    let (part, parts, e) = split_path-nonempty s in
    elim (Bool-cases (c == b'.')) [
      | inl dot ↦ ([], part ∷ parts, rw (dot, e) refl)
      | inr plain ↦ (c ∷ part, parts, rw (plain, e) refl)
    ]

join_dots-onto_first :
    (c : ℕ) (part : Text) (parts : List Text)
    → join_dots ((c ∷ part) ∷ parts) ≡ c ∷ join_dots (part ∷ parts)
unfolding join_dots
join_dots-onto_first c part [] = refl
join_dots-onto_first c part (more ∷ parts) = refl

-- The parts are those between the dots of the path.
join_dots-split_path : (s : Text) → join_dots (split_path s) ≡ s
unfolding split_path onto_first join_dots
join_dots-split_path [] = refl
join_dots-split_path (c ∷ s) =
    let (part, parts, e) = split_path-nonempty s in
    let ih : join_dots (part ∷ parts) ≡ s = ap join_dots (sym e) ∙ join_dots-split_path s in
    elim (Bool-cases (c == b'.')) [
      | inl dot ↦
          let same : c ≡ b'.' = ground arith in
          rw (dot, e) (ap (λ t. b'.' ∷ t) ih ∙ ap (λ d. d ∷ s) (sym same))
      | inr plain ↦ rw (plain, e) (join_dots-onto_first c part parts ∙ ap (λ t. c ∷ t) ih)
    ]

-- No part has a dot.
abbrev pub HasNoDot : Text → Type 0
HasNoDot part = All (λ c. (c == b'.') ≡ false) part

split_path-HasNoDot : (s : Text) → All HasNoDot (split_path s)
unfolding split_path onto_first
split_path-HasNoDot [] = (tt, tt)
split_path-HasNoDot (c ∷ s) =
    let (part, parts, e) = split_path-nonempty s in
    let ih : All HasNoDot (part ∷ parts) = rw e at (split_path-HasNoDot s) in
    elim (Bool-cases (c == b'.')) [
      | inl dot ↦ rw (dot, e) (tt, ih)
      | inr plain ↦ rw (plain, e) ((plain, ih.0), ih.1)
    ]

module _ {V : Type 0} where
  -- A nested object for each part but the last, which holds the value.
  unfoldable pub nest : List Text → V → Json V
  nest [] v = scalar v
  nest (part ∷ parts) v = object (member part (nest parts v) no_members)

  -- A payload without a path has the one member `value`.
  unfoldable pub mqtt_payload : Text → V → Json V
  mqtt_payload [] v = object (member (codes "value") (scalar v) no_members)
  mqtt_payload (c ∷ path) v = nest (split_path (c ∷ path)) v

  unfoldable pub find_member : Text → Members V → Result (Json V)
  find_member key no_members = err missing_tag
  find_member key (member k json rest) =
      let later = find_member key rest in if text_eq key k then ok json else later

  -- One part of a path: an error where the value is no object or has no such member.
  unfoldable pub step_into : Text → Json V → Result (Json V)
  step_into part (scalar v) = err bad_tag
  step_into part (object members) = find_member part members

  unfoldable pub follow_path : List Text → Json V → Result (Json V)
  follow_path [] json = ok json
  follow_path (part ∷ parts) json = step_into part json >>= follow_path parts

  -- Without a path the whole value is read.
  unfoldable pub read_payload : Text → Json V → Result (Json V)
  read_payload [] json = ok json
  read_payload (c ∷ path) json = follow_path (split_path (c ∷ path)) json

  -- The keys of a chain of objects of one member each.
  pub keys_of : Json V → List Text
  keys_of (scalar v) = []
  keys_of (object no_members) = []
  keys_of (object (member k json rest)) = k ∷ keys_of json

  follow_path-nest : (parts : List Text) (v : V) → follow_path parts (nest parts v) ≡ ok (scalar v)
  unfolding follow_path nest step_into find_member
  follow_path-nest [] v = refl
  follow_path-nest (part ∷ parts) v = rw (text_eq_refl part) (follow_path-nest parts v)

  keys_of-nest : (parts : List Text) (v : V) → keys_of (nest parts v) ≡ parts
  unfolding keys_of nest
  keys_of-nest [] v = refl
  keys_of-nest (part ∷ parts) v = ap (λ l. part ∷ l) (keys_of-nest parts v)

-- json.Marshal and the decoder after it, which change the scalars as `through` says: an integer comes
-- back as a float64 or as a json.Number.
mutual
  pub decoded : {V W : Type 0} → (V → W) → Json V → Json W
  decoded through (scalar v) = scalar (through v)
  decoded through (object members) = object (decoded_members through members)

  pub decoded_members : {V W : Type 0} → (V → W) → Members V → Members W
  decoded_members through no_members = no_members
  decoded_members through (member k json rest) =
      member k (decoded through json) (decoded_members through rest)

decoded-nest :
    {V W : Type 0} (through : V → W) (parts : List Text) (v : V)
    → decoded through (nest parts v) ≡ nest parts (through v)
unfolding nest decoded decoded_members
decoded-nest through [] v = refl
decoded-nest through (part ∷ parts) v =
    ap (λ json. object (member part json no_members)) (decoded-nest through parts v)

module _ (fl : Floats) (sc : Scans fl) where
  unfoldable pub build_mqtt_payload : Text → Text → Bool → ValueOf fl → Result (Json (ValueOf fl))
  build_mqtt_payload path data_type explicit v = do
    target ← normalize_command_value fl sc data_type explicit v
    ok (mqtt_payload path target)

  -- What is published under a path that is not empty is a chain of objects whose keys, which have no dot,
  -- are the path with a dot between them; and under that path it is read back as what encoding and decoding
  -- JSON make of the value that the command was converted to.
  pub read_payload-build :
      {W : Type 0} (through : ValueOf fl → W) (c : ℕ) (path data_type : Text) (explicit : Bool)
      (v : ValueOf fl) (payload : Json (ValueOf fl))
      → build_mqtt_payload (c ∷ path) data_type explicit v ≡ ok payload
      → (target : ValueOf fl) × (normalize_command_value fl sc data_type explicit v ≡ ok target)
        × (join_dots (keys_of payload) ≡ c ∷ path)
        × All HasNoDot (keys_of payload)
        × (read_payload (c ∷ path) (decoded through payload) ≡ ok (scalar (through target)))
  unfolding build_mqtt_payload mqtt_payload read_payload
  read_payload-build through c path data_type explicit v payload e =
      let (target, converted, same) =
        map-ok (normalize_command_value fl sc data_type explicit v)
          (λ target. mqtt_payload (c ∷ path) target) e in
      let parts = split_path (c ∷ path) in
      let keys : keys_of payload ≡ parts = ap keys_of same ∙ keys_of-nest parts target in
      (
        target,
        converted,
        ap join_dots keys ∙ join_dots-split_path (c ∷ path),
        subst (All HasNoDot) (sym keys) (split_path-HasNoDot (c ∷ path)),
        ap (λ json. follow_path parts (decoded through json)) same
            ∙ ap (follow_path parts) (decoded-nest through parts target)
            ∙ follow_path-nest parts (through target),
      )
