-- ===== src/Bootstrap/Labels.antt =====
-- internal/bootstrap/template.go: what a sanitized label holds.
use gpuscale.Prelude.{
  ℕ, zero, suc, ◌≤◌, ◌≡◌, refl, ap, inl, inr, true, false, ltb, [], ◌∷◌, Text, take, length, All,
  Bool-cases, ◌==◌, arith,
}
use gpuscale.Bootstrap.{is_label_byte, label_bytes, sanitize_label}

abbrev pub IsLabel : Text → Type 0
IsLabel = All (λ (c : ℕ). is_label_byte c ≡ true)

label_bytes-IsLabel : (s : Text) → IsLabel (label_bytes s)
unfolding label_bytes
label_bytes-IsLabel [] = tt
label_bytes-IsLabel (c ∷ s) = elim (Bool-cases (is_label_byte c)) [
  | inl good ↦ rw good (good, label_bytes-IsLabel s)
  | inr bad ↦ elim (Bool-cases (c == b' ')) [
    | inl space ↦ rw (bad, space) (dash, label_bytes-IsLabel s)
    | inr other ↦ rw (bad, other) (label_bytes-IsLabel s)
  ]
]
  where
    dash : is_label_byte b'-' ≡ true
    dash = refl

take-IsLabel : (n : ℕ) (s : Text) → IsLabel s → IsLabel (take n s)
take-IsLabel zero s l = tt
take-IsLabel (suc n) [] l = tt
take-IsLabel (suc n) (c ∷ s) l = (l.0, take-IsLabel n s l.1)

length-take : (n : ℕ) (s : Text) → length (take n s) ≤ n
length-take zero s = omega arith
length-take (suc n) [] = omega arith
length-take (suc n) (c ∷ s) = omega (arith, length-take n s)

label_bytes-label : (s : Text) → IsLabel s → label_bytes s ≡ s
unfolding label_bytes
label_bytes-label [] l = refl
label_bytes-label (c ∷ s) l = rw l.0 (ap (◌∷◌ c) (label_bytes-label s l.1))

sanitized : (s : Text) → IsLabel (sanitize_label s) × (length (sanitize_label s) ≤ 63)
unfolding sanitize_label
sanitized s = elim (Bool-cases (ltb 63 (length (label_bytes s)))) [
  | inl long ↦ rw long (take-IsLabel 63 _ (label_bytes-IsLabel s), length-take 63 (label_bytes s))
  | inr short ↦ rw short (label_bytes-IsLabel s, ground arith)
]

is_within : (n : ℕ) → n ≤ 63 → ltb 63 n ≡ false
is_within n h = ground arith

kept : (s : Text) → IsLabel s → length s ≤ 63 → sanitize_label s ≡ s
unfolding sanitize_label
kept s l h =
    let same : label_bytes s ≡ s = label_bytes-label s l in rw (same, is_within (length s) h) refl

-- A sanitized label holds at most 63 characters, all of them letters, digits, dashes, underscores
-- and dots; a text of that kind is left as it is, so that sanitizing twice changes nothing more.
pub sanitize_label_lem :
    (s : Text)
    → IsLabel (sanitize_label s)
      × (length (sanitize_label s) ≤ 63)
      × (IsLabel s → length s ≤ 63 → sanitize_label s ≡ s)
      × (sanitize_label (sanitize_label s) ≡ sanitize_label s)
sanitize_label_lem s = let (l, h) = sanitized s in (l, h, kept s, kept (sanitize_label s) l h)
