-- ===== src/Health/Targets/Ids.antt =====
-- The devices of a target, and the keys of a list of targets.
use multiple_protocol_contro.Common.{Bool, Bool-cases, In, In-append, In-append_left}
use multiple_protocol_contro.Common.{In-append_right, List, Text, [], false, inl, inr, map}
use multiple_protocol_contro.Common.{or_false, refl, sym, text_eq, text_eq_refl, text_eq→eq, true}
use multiple_protocol_contro.Common.{◌++◌, ◌||◌, ◌∷◌, ◌≡◌, ◌⊎◌}
use multiple_protocol_contro.Health.Probe.Sound.{either_branch}
use multiple_protocol_contro.Health.Targets.{GatewayTarget, add_id, has_id}

abbrev pub Distinct : List Text → Type 0
Distinct [] = Unit {0}
Distinct (x ∷ xs) = (In x xs → ⊥) × Distinct xs

-- A target of that key has that device.
abbrev pub Has : List GatewayTarget → Text → Text → Type 0
Has ts k id = (t : GatewayTarget) × In t ts × (t.key ≡ k) × In id t.device_ids

abbrev pub keys : List GatewayTarget → List Text
keys ts = map (λ t. t.key) ts

has_id→In : (id : Text) (xs : List Text) → has_id id xs ≡ true → In id xs
unfolding has_id
has_id→In id [] h = absurd cc
has_id→In id (x ∷ xs) h = elim (Bool-cases (text_eq id x)) [
  | inl same ↦ inl (text_eq→eq id x same)
  | inr differs ↦ inr (has_id→In id xs (rw differs at h))
]

In→has_id : (id : Text) (xs : List Text) → In id xs → has_id id xs ≡ true
unfolding has_id
In→has_id id [] h = absurd h
In→has_id id (x ∷ xs) (inl e) = rw (e, text_eq_refl x) refl
In→has_id id (x ∷ xs) (inr h) =
    rw (In→has_id id xs h)
      (elim (Bool-cases (text_eq id x)) [ inl same ↦ rw same refl | inr differs ↦ rw differs refl ])

pub contradiction_of : {b : Bool} → b ≡ true → b ≡ false → ⊥
contradiction_of e f = absurd cc

Distinct-append_one :
    (id : Text) (xs : List Text) → (In id xs → ⊥) → Distinct xs → Distinct (xs ++ (id ∷ []))
Distinct-append_one id [] new d = (λ h. h, tt)
Distinct-append_one id (x ∷ xs) new (fresh, d) = (
  λ h. elim (In-append x xs (id ∷ []) h) [
    | inl old ↦ fresh old
    | inr (inl e) ↦ new (inl (sym e))
    | inr (inr h') ↦ h'
  ],
  Distinct-append_one id xs (λ h. new (inr h)) d,
)

pub add_id-Distinct : (id : Text) (xs : List Text) → Distinct xs → Distinct (add_id id xs)
unfolding add_id
add_id-Distinct id xs d = elim (Bool-cases (text_eq id [] || has_id id xs)) [
  | inl known ↦ rw known d
  | inr new ↦ rw new (
      Distinct-append_one id xs
        (λ h. contradiction_of (In→has_id id xs h) (or_false (text_eq id []) _ new).1) d)
]

pub add_id-keeps : (id x : Text) (xs : List Text) → In x xs → In x (add_id id xs)
unfolding add_id
add_id-keeps id x xs h =
    either_branch (text_eq id [] || has_id id xs) (λ l. In x l) h (In-append_left x xs (id ∷ []) h)

pub add_id-adds : (id : Text) (xs : List Text) → text_eq id [] ≡ false → In id (add_id id xs)
unfolding add_id
add_id-adds id xs e = rw e (elim (Bool-cases (has_id id xs)) [
  | inl known ↦ rw known (has_id→In id xs known)
  | inr new ↦ rw new (In-append_right id xs (id ∷ []) (inl refl))
])

pub add_id-back : (id x : Text) (xs : List Text) → In x (add_id id xs) → In x xs ⊎ (x ≡ id)
unfolding add_id
add_id-back id x xs =
    either_branch (text_eq id [] || has_id id xs) (λ l. In x l → In x xs ⊎ (x ≡ id)) (λ h. inl h)
      (λ h. elim (In-append x xs (id ∷ []) h) [
        | inl old ↦ inl old
        | inr (inl e) ↦ inr e
        | inr (inr h') ↦ absurd h'
      ])
