-- ===== src/Runtime/Origin.antt =====
-- Where a point of the runtime comes from: the property and the configured point behind it.
use multiple_protocol_contro.Common.{Bool, In, In-append, List, [], ap, false, inl, inr, refl}
use multiple_protocol_contro.Common.{sym, true, ◌∷◌, ◌≡◌, ◌⊎◌}
use multiple_protocol_contro.Runtime.Device.{Property, add_points, add_valid, is_write_enabled}
use multiple_protocol_contro.Runtime.Device.{keep_valid, points_of}
use multiple_protocol_contro.Values.{Result, err, ok, panic}

add_valid-In :
    {B : Type 0} (r : Result B) (later : List B) (b : B)
    → In b (add_valid r later)
    → (r ≡ ok b) ⊎ In b later
unfolding add_valid
add_valid-In (ok c) later b (inl e) = inl (ap ok (sym e))
add_valid-In (ok c) later b (inr m) = inr m
add_valid-In (err e) later b m = inr m
add_valid-In panic later b m = inr m

module _ {A B : Type 0} where
  pub keep_valid-In :
      (f : A → Result B) (xs : List A) (b : B)
      → In b (keep_valid f xs)
      → (a : A) × In a xs × (f a ≡ ok b)
  unfolding keep_valid
  keep_valid-In f [] b m = absurd m
  keep_valid-In f (a ∷ rest) b m = elim (add_valid-In (f a) (keep_valid f rest) b m) [
    | inl e ↦ (a, inl refl, e)
    | inr later ↦ let (a', m', e') = keep_valid-In f rest b later in (a', inr m', e')
  ]

module _ {P C : Type 0} where
  add_points-In :
      (writable : Bool) (r : Result (List P × List C)) (later : List P × List C) (p : P)
      → In p (add_points writable r later).0
      → ((points : List P × List C) × (r ≡ ok points) × In p points.0) ⊎ In p later.0
  unfolding add_points
  add_points-In writable (ok points) later p m = elim (In-append p points.0 later.0 m) [
    | inl here ↦ inl (points, refl, here)
    | inr there ↦ inr there
  ]
  add_points-In writable (err e) later p m = inr m
  add_points-In writable panic later p m = inr m

  add_commands-In :
      (writable : Bool) (r : Result (List P × List C)) (later : List P × List C) (c : C)
      → In c (add_points writable r later).1
      → ((points : List P × List C) × (r ≡ ok points) × (writable ≡ true) × In c points.1)
        ⊎ In c later.1
  unfolding add_points
  add_commands-In true (ok points) later c m = elim (In-append c points.1 later.1 m) [
    | inl here ↦ inl (points, refl, refl, here)
    | inr there ↦ inr there
  ]
  add_commands-In false (ok points) later c m = inr m
  add_commands-In writable (err e) later c m = inr m
  add_commands-In writable panic later c m = inr m

module _ {Raw P C : Type 0} (parse : Property Raw → Result (List P × List C)) where
  pub points_of-In :
      (props : List (Property Raw)) (p : P)
      → In p (points_of parse props).0
      → (prop : Property Raw) × In prop props
        × (points : List P × List C) × (parse prop ≡ ok points)
        × In p points.0
  unfolding points_of
  points_of-In [] p m = absurd m
  points_of-In (prop ∷ props) p m =
      elim (add_points-In (is_write_enabled prop.access) (parse prop) (points_of parse props) p m) [
        | inl (points, e, here) ↦ (prop, inl refl, points, e, here)
        | inr later ↦
            let (prop', m', points, e, here) = points_of-In props p later in
            (prop', inr m', points, e, here)
      ]

  -- A write point comes from a property that may be written.
  pub commands_of-In :
      (props : List (Property Raw)) (c : C)
      → In c (points_of parse props).1
      → (prop : Property Raw) × In prop props
        × (points : List P × List C) × (parse prop ≡ ok points)
        × (is_write_enabled prop.access ≡ true)
        × In c points.1
  unfolding points_of
  commands_of-In [] c m = absurd m
  commands_of-In (prop ∷ props) c m =
      elim (add_commands-In (is_write_enabled prop.access) (parse prop) (points_of parse props) c
        m) [
          | inl (points, e, writable, here) ↦ (prop, inl refl, points, e, writable, here)
          | inr later ↦
              let (prop', m', points, e, writable, here) = commands_of-In props c later in
              (prop', inr m', points, e, writable, here)
        ]
