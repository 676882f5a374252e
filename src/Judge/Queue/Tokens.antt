-- ===== src/Judge/Queue/Tokens.antt =====
-- Counting the occurrences of a device in a list of devices.
use multiple_protocol_contro.Common.{Bool-cases, List, Text, [], arith, false, if◌then◌else◌, inl}
use multiple_protocol_contro.Common.{inr, length, refl, suc, sym, text_eq, text_eq_refl}
use multiple_protocol_contro.Common.{text_eq→eq, true, ℕ, ◌++◌, ◌∙◌, ◌∷◌, ◌≡◌, ◌≤◌}
use mathlib.Core.Path.{subst}

abbrev pub count_of : Text → List Text → ℕ
count_of d [] = 0
count_of d (x ∷ xs) = if text_eq d x then suc (count_of d xs) else count_of d xs

abbrev pub without : Text → List Text → List Text
without d [] = []
without d (x ∷ xs) = if text_eq d x then xs else x ∷ without d xs

pub text_eq_sym : (s t : Text) → text_eq s t ≡ text_eq t s
text_eq_sym s t = elim (Bool-cases (text_eq s t)) [
  | inl e ↦ subst (λ u. text_eq s u ≡ text_eq u s) (text_eq→eq s t e) refl
  | inr e ↦ elim (Bool-cases (text_eq t s)) [
    | inl f ↦ subst (λ u. text_eq u t ≡ text_eq t u) (text_eq→eq t s f) refl
    | inr f ↦ e ∙ sym f
  ]
]

pub count_of-append :
    (d x : Text) (xs : List Text)
    → count_of d (xs ++ (x ∷ [])) ≡ (if text_eq d x then suc (count_of d xs) else count_of d xs)
count_of-append d x [] = refl
count_of-append d x (y ∷ ys) = ground (arith, count_of-append d x ys)

pub length-without :
    (d : Text) (xs : List Text) → 1 ≤ count_of d xs → suc (length (without d xs)) ≡ length xs
length-without d [] h = absurd (omega arith)
length-without d (x ∷ xs) h = ground (arith, length-without d xs)

pub count_of-without_same :
    (d : Text) (xs : List Text)
    → 1 ≤ count_of d xs
    → suc (count_of d (without d xs)) ≡ count_of d xs
count_of-without_same d [] h = absurd (omega arith)
count_of-without_same d (x ∷ xs) h = elim (Bool-cases (text_eq d x)) [
  | inl e ↦ rw e refl
  | inr e ↦ rw (e, e) (count_of-without_same d xs (rw e at h))
]

pub count_of-without_other :
    (d d' : Text) (xs : List Text)
    → text_eq d' d ≡ false
    → count_of d' (without d xs) ≡ count_of d' xs
count_of-without_other d d' [] h = refl
count_of-without_other d d' (x ∷ xs) h = elim (Bool-cases (text_eq d x)) [
  | inl e ↦
      let apart : text_eq d' x ≡ false = subst (λ t. text_eq d' t ≡ false) (text_eq→eq d x e) h in
      rw (e, apart) refl
  | inr e ↦ rw e (ground (arith, count_of-without_other d d' xs h))
]

-- A list in which no device stands more often than in another is not longer.
pub length-count_of :
    (xs ys : List Text) → ((d : Text) → count_of d xs ≤ count_of d ys) → length xs ≤ length ys
length-count_of [] ys h = omega arith
length-count_of (x ∷ xs) ys h =
    let self : text_eq x x ≡ true = text_eq_refl x in
    let here : suc (count_of x xs) ≤ count_of x ys = rw self at (h x) in
    let one : 1 ≤ count_of x ys = omega arith in
    let fewer : length xs ≤ length (without x ys) = length-count_of xs (without x ys) (rest one) in
    omega (arith, fewer, length-without x ys one)
  where
    rest : 1 ≤ count_of x ys → (d : Text) → count_of d xs ≤ count_of d (without x ys)
    rest one d = elim (Bool-cases (text_eq d x)) [
      | inl e ↦
          let at_d : suc (count_of d xs) ≤ count_of d ys = rw e at (h d) in
          let same : d ≡ x = text_eq→eq d x e in
          let counts : suc (count_of d (without x ys)) ≡ count_of d ys =
            subst (λ t. suc (count_of t (without x ys)) ≡ count_of t ys) (sym same)
              (count_of-without_same x ys one) in
          omega arith
      | inr e ↦
          let at_d : count_of d xs ≤ count_of d ys = rw e at (h d) in
          omega (arith, count_of-without_other x d ys e)
    ]
