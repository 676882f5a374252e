-- ===== src/Protocol/Names/Registered.antt =====
-- Which Modbus names have an implementation.
use multiple_protocol_contro.Common.{Bool, Bool-cases, In, List, Text, [], ap, codes, false, inl}
use multiple_protocol_contro.Common.{inr, none, refl, switch, text_eq, text_eq→eq, trim_space}
use multiple_protocol_contro.Common.{true, upper, ◌∙◌, ◌∷◌, ◌≡◌, ◌≢◌}
use multiple_protocol_contro.Protocol.Names.{get_protocol, is_modbus_protocol, normalize_name}
use multiple_protocol_contro.Protocol.Names.{register_protocol, registry}

switch-In :
    (labels : List (Text × Bool)) (t : Text)
    → switch labels false t ≡ true
    → (label : Text × Bool) × In label labels × (t ≡ label.0)
unfolding switch
switch-In [] t h = absurd cc
switch-In ((k, v) ∷ rest) t h = elim (Bool-cases (text_eq t k)) [
  | inl here ↦ ((k, v), inl refl, text_eq→eq t k here)
  | inr there ↦ let (label, m, e) = switch-In rest t (rw there at h) in (label, inr m, e)
]

get_protocol-named :
    (proto label : Text) → normalize_name proto ≡ label → get_protocol proto ≡ registry label
unfolding get_protocol
get_protocol-named proto label e = ap registry e

unregistered_joined : registry (codes "MODBUSRTU") ≡ none
unfolding register_protocol normalize_name trim_space upper text_eq
unregistered_joined = refl

unregistered_bare : registry (codes "MODBUS") ≡ none
unfolding register_protocol normalize_name trim_space upper text_eq
unregistered_bare = refl

unregistered_tcp_joined : registry (codes "MODBUSTCP") ≡ none
unfolding register_protocol normalize_name trim_space upper text_eq
unregistered_tcp_joined = refl

unregistered_tcp : registry (codes "MODBUS_TCP") ≡ none
unfolding register_protocol normalize_name trim_space upper text_eq
unregistered_tcp = refl

-- A Modbus name other than MODBUS_RTU has no implementation.
pub other_modbus_names :
    (proto : Text)
    → is_modbus_protocol proto ≡ true
    → normalize_name proto ≢ codes "MODBUS_RTU"
    → get_protocol proto ≡ none
unfolding is_modbus_protocol
other_modbus_names proto h other_name =
    let (label, m, e) = switch-In _ (normalize_name proto) h in
    elim m [
      | inl a ↦
          get_protocol-named proto (codes "MODBUSRTU") (e ∙ ap (λ l. l.0) a) ∙ unregistered_joined
      | inr (inl b) ↦ absurd (other_name (e ∙ ap (λ l. l.0) b))
      | inr (inr (inl c)) ↦
          get_protocol-named proto (codes "MODBUS") (e ∙ ap (λ l. l.0) c) ∙ unregistered_bare
      | inr (inr (inr (inl d))) ↦
          get_protocol-named proto (codes "MODBUSTCP") (e ∙ ap (λ l. l.0) d)
          ∙ unregistered_tcp_joined
      | inr (inr (inr (inr (inl f)))) ↦
          get_protocol-named proto (codes "MODBUS_TCP") (e ∙ ap (λ l. l.0) f) ∙ unregistered_tcp
      | inr (inr (inr (inr (inr g)))) ↦ absurd g
    ]
