-- ===== src/Health/Targets/Grouped.antt =====
-- Grouping one device by its endpoint, and dropping the targets without a device.
use multiple_protocol_contro.Common.{All, Bool-cases, In, List, Text, [], ap, arith, false, inl}
use multiple_protocol_contro.Common.{inr, length, refl, sym, text_eq, text_eq_refl, text_eq→eq, ℕ}
use multiple_protocol_contro.Common.{◌==◌, ◌∙◌, ◌∷◌, ◌≡◌, ◌≢◌, ◌⊎◌}
use multiple_protocol_contro.Control.Results.Summary.{named}
use multiple_protocol_contro.Health.Probe.Sound.{either_branch}
use multiple_protocol_contro.Health.Targets.{GatewayTarget, add_id, group_id, keep_named}
use multiple_protocol_contro.Health.Targets.Ids.{Distinct, Has, add_id-Distinct, add_id-adds}
use multiple_protocol_contro.Health.Targets.Ids.{add_id-back, add_id-keeps, contradiction_of}
use multiple_protocol_contro.Health.Targets.Ids.{keys}
use mathlib.Core.Path.{subst}

behind_head : {X H A B : Type 0} → (H → A ⊎ B) → X ⊎ H → (X ⊎ A) ⊎ B
behind_head back (inl e) = inl (inl e)
behind_head back (inr h) = elim (back h) [ inl a ↦ inl (inr a) | inr b ↦ inr b ]

module _ (k ip : Text) (port : ℕ) (id : Text) where
  abbrev pub grouped : List GatewayTarget → List GatewayTarget
  grouped ts = group_id k ip port id ts

  grouped-keys :
      (k' : Text) (ts : List GatewayTarget) → In k' (keys (grouped ts)) → In k' (keys ts) ⊎ (k' ≡ k)
  unfolding group_id
  grouped-keys k' [] (inl e) = inr e
  grouped-keys k' [] (inr h) = absurd h
  grouped-keys k' (t ∷ ts) h = elim (Bool-cases (text_eq k t.key)) [
    | inl same ↦ inl (rw same at h)
    | inr differs ↦ behind_head (grouped-keys k' ts) (rw differs at h)
  ]

  pub grouped-Distinct :
      (ts : List GatewayTarget) → Distinct (keys ts) → Distinct (keys (grouped ts))
  unfolding group_id
  grouped-Distinct [] d = (λ h. h, tt)
  grouped-Distinct (t ∷ ts) (fresh, d) = elim (Bool-cases (text_eq k t.key)) [
    | inl same ↦ rw same (fresh, d)
    | inr differs ↦ rw differs (
      λ h. elim (grouped-keys t.key ts h) [
        | inl old ↦ fresh old
        | inr e ↦ contradiction_of (rw e (text_eq_refl k)) differs
      ],
      grouped-Distinct ts d,
    )
  ]

  pub grouped-All-Distinct :
      (ts : List GatewayTarget)
      → All (λ t. Distinct t.device_ids) ts
      → All (λ t. Distinct t.device_ids) (grouped ts)
  unfolding group_id
  grouped-All-Distinct [] ds = (add_id-Distinct id [] tt, tt)
  grouped-All-Distinct (t ∷ ts) (d, ds) =
      either_branch (text_eq k t.key) (All (λ u. Distinct u.device_ids))
        (add_id-Distinct id t.device_ids d, ds) (d, grouped-All-Distinct ts ds)

  pub grouped-keeps :
      (k' id' : Text) (ts : List GatewayTarget) → Has ts k' id' → Has (grouped ts) k' id'
  unfolding group_id
  grouped-keeps k' id' [] (t, h, e, m) = absurd h
  grouped-keeps k' id' (u ∷ ts) (t, inl e0, e, m) =
      either_branch (text_eq k u.key) (λ l. Has l k' id')
        (
          record u { device_ids = add_id id u.device_ids },
          inl refl,
          ap (λ (v : GatewayTarget). v.key) (sym e0) ∙ e,
          add_id-keeps id id' u.device_ids
              (subst (λ (v : GatewayTarget). In id' v.device_ids) e0 m),
        )
        (t, inl e0, e, m)
  grouped-keeps k' id' (u ∷ ts) (t, inr h, e, m) =
      let (t', h', e', m') = grouped-keeps k' id' ts (t, h, e, m) in
      either_branch (text_eq k u.key) (λ l. Has l k' id') (t, inr h, e, m) (t', inr h', e', m')

  pub grouped-adds : (ts : List GatewayTarget) → text_eq id [] ≡ false → Has (grouped ts) k id
  unfolding group_id
  grouped-adds [] named = (_, inl refl, refl, add_id-adds id [] named)
  grouped-adds (t ∷ ts) named =
      let (t', h', e', m') = grouped-adds ts named in
      elim (Bool-cases (text_eq k t.key)) [
        | inl same ↦
            rw same (_, inl refl, sym (text_eq→eq k t.key same), add_id-adds id t.device_ids named)
        | inr differs ↦ rw differs (t', inr h', e', m')
      ]

  only_new : {x : Text} → In x [] ⊎ (x ≡ id) → x ≡ id
  only_new (inl h) = absurd h
  only_new (inr e) = e

  abbrev pub KnownOrNew : Text → Text → List GatewayTarget → Type 0
  KnownOrNew k' id' ts = Has ts k' id' ⊎ ((k' ≡ k) × (id' ≡ id))

  changed_back :
      (k' id' : Text) (u : GatewayTarget) (ts : List GatewayTarget)
      → k ≡ u.key
      → Has (record u { device_ids = add_id id u.device_ids } ∷ ts) k' id'
      → KnownOrNew k' id' (u ∷ ts)
  changed_back k' id' u ts same (t, inl e0, e, m) =
      let to_u : u.key ≡ k' = ap (λ (v : GatewayTarget). v.key) (sym e0) ∙ e in
      let found = subst (λ (v : GatewayTarget). In id' v.device_ids) e0 m in
      elim (add_id-back id id' u.device_ids found) [
        | inl old ↦ inl (u, inl refl, to_u, old)
        | inr is_id ↦ inr (sym to_u ∙ sym same, is_id)
      ]
  changed_back k' id' u ts same (t, inr h, e, m) = inl (t, inr h, e, m)

  later_back :
      (k' id' : Text) (u : GatewayTarget) (ts : List GatewayTarget)
      → (Has (grouped ts) k' id' → KnownOrNew k' id' ts)
      → Has (u ∷ grouped ts) k' id'
      → KnownOrNew k' id' (u ∷ ts)
  later_back k' id' u ts back (t, inl e0, e, m) = inl (t, inl e0, e, m)
  later_back k' id' u ts back (t, inr h, e, m) = elim (back (t, h, e, m)) [
    | inl (t', h', e', m') ↦ inl (t', inr h', e', m')
    | inr new ↦ inr new
  ]

  pub grouped-back :
      (k' id' : Text) (ts : List GatewayTarget) → Has (grouped ts) k' id' → KnownOrNew k' id' ts
  unfolding group_id
  grouped-back k' id' [] (t, inl e0, e, m) = inr (
    sym e ∙ ap (λ (v : GatewayTarget). v.key) e0,
    only_new (add_id-back id id' [] (subst (λ (v : GatewayTarget). In id' v.device_ids) e0 m)),
  )
  grouped-back k' id' [] (t, inr h, e, m) = absurd h
  grouped-back k' id' (u ∷ ts) h = elim (Bool-cases (text_eq k u.key)) [
    | inl same ↦ changed_back k' id' u ts (text_eq→eq k u.key same) (rw same at h)
    | inr differs ↦ later_back k' id' u ts (grouped-back k' id' ts) (rw differs at h)
  ]

-- Without the targets that have no device.
kept_head :
    (t u : GatewayTarget) (ts : List GatewayTarget)
    → (length u.device_ids == 0) ≡ false
    → (In t (keep_named ts) → In t ts × (t.device_ids ≢ []))
    → In t (u ∷ keep_named ts)
    → In t (u ∷ ts) × (t.device_ids ≢ [])
kept_head t u ts named back (inl e) =
    (inl e, λ nobody. contradiction_of (rw (← e, nobody) refl) named)
kept_head t u ts named back (inr h) = let (m, some_id) = back h in (inr m, some_id)

has_one : (id : Text) (ids : List Text) → In id ids → (length ids == 0) ≡ false
has_one id [] h = absurd h
has_one id (x ∷ ids) h = ground arith

keep_named-keys :
    (k : Text) (ts : List GatewayTarget) → In k (keys (keep_named ts)) → In k (keys ts)
unfolding keep_named
keep_named-keys k [] = λ h. h
keep_named-keys k (t ∷ ts) =
    either_branch (length t.device_ids == 0) (λ l. In k (keys l) → In k (keys (t ∷ ts)))
      (λ h. inr (keep_named-keys k ts h))
      (λ h. elim h as (λ _. In k (keys (t ∷ ts))) [
        | inl e ↦ inl e
        | inr later ↦ inr (keep_named-keys k ts later)
      ])

pub keep_named-In :
    (t : GatewayTarget) (ts : List GatewayTarget)
    → In t (keep_named ts)
    → In t ts × (t.device_ids ≢ [])
unfolding keep_named
keep_named-In t [] h = absurd h
keep_named-In t (u ∷ ts) h = elim (Bool-cases (length u.device_ids == 0)) [
  | inl nobody ↦ let (m, some_id) = keep_named-In t ts (rw nobody at h) in (inr m, some_id)
  | inr named ↦ kept_head t u ts named (keep_named-In t ts) (rw named at h)
]

pub In-keep_named :
    (t : GatewayTarget) (ts : List GatewayTarget) (id : Text)
    → In id t.device_ids
    → In t ts
    → In t (keep_named ts)
unfolding keep_named
In-keep_named t [] id m h = absurd h
In-keep_named t (u ∷ ts) id m (inl e) =
    subst (λ v. In t (keep_named (v ∷ ts))) e (rw (has_one id t.device_ids m) (inl refl))
In-keep_named t (u ∷ ts) id m (inr h) =
    either_branch (length u.device_ids == 0) (In t) (In-keep_named t ts id m h)
      (inr (In-keep_named t ts id m h))

pub keep_named-Distinct :
    (ts : List GatewayTarget) → Distinct (keys ts) → Distinct (keys (keep_named ts))
unfolding keep_named
keep_named-Distinct [] d = tt
keep_named-Distinct (t ∷ ts) (fresh, d) =
    either_branch (length t.device_ids == 0) (λ l. Distinct (keys l)) (keep_named-Distinct ts d)
      (λ h. fresh (keep_named-keys t.key ts h), keep_named-Distinct ts d)
