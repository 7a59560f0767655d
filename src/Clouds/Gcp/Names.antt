-- ===== src/Clouds/Gcp/Names.antt =====
-- pkg/provider/gcp/provider.go: names of machines, instances and labels.
use gpuscale.Prelude.{
  ℕ, zero, suc, ◌-◌, inl, inr, Bool, true, false, ◌&&◌, ◌||◌, ltb, leb, ◌==◌, if◌then◌else◌, [],
  ◌∷◌, ◌++◌, ◌≡◌, refl, Text, txt, to_lower, length, take, All, Bool-cases, arith,
}

abbrev upper_byte : ℕ → ℕ
upper_byte c = if leb b'a' c && leb c b'z' then c - 32 else c

unfoldable pub to_upper : Text → Text
to_upper [] = []
to_upper (c ∷ s) = upper_byte c ∷ to_upper s

-- The parts of `SplitN(id, "@", 2)`, the second one empty where there is none.
unfoldable pub split_offer_id : Text → Text × Text
split_offer_id [] = ([], [])
split_offer_id (c ∷ s) =
    let (name, zone) = split_offer_id s in if c == b'@' then ([], s) else (c ∷ name, zone)

abbrev pub is_name_byte : ℕ → Bool
is_name_byte c = (leb b'a' c && leb c b'z') || ((leb b'0' c && leb c b'9') || c == b'-')

-- A byte that continues a rune; the rune as a whole becomes one dash.
abbrev is_continuation : ℕ → Bool
is_continuation c = leb 128 c && ltb c 192

unfoldable pub dashed : (ℕ → Bool) → Text → Text
dashed keeps [] = []
dashed keeps (c ∷ s) =
    let rest = dashed keeps s in
    if is_continuation c then rest else if keeps c then c ∷ rest else b'-' ∷ rest

unfoldable pub sanitize_name : Text → Text
unfolding dashed to_lower
sanitize_name s = dashed is_name_byte (to_lower s)

abbrev pub cut_at_63 : Text → Text
cut_at_63 s = if ltb 63 (length s) then take 63 s else s

-- `sanitizeLabel`
unfoldable pub gcp_label : Text → Text
unfolding dashed to_lower
gcp_label s = cut_at_63 (dashed (λ c. is_name_byte c || c == b'_') (to_lower s))

abbrev pub NoAt : Text → Type 0
NoAt = All (λ (c : ℕ). (c == b'@') ≡ false)

pub split_offer_id-join :
    (name zone : Text) → NoAt name → split_offer_id (name ++ (txt "@" ++ zone)) ≡ (name, zone)
unfolding split_offer_id
split_offer_id-join [] zone a = refl
split_offer_id-join (c ∷ name) zone (e, a) = rw (e, split_offer_id-join name zone a) refl

dashed-NoAt :
    (keeps : ℕ → Bool)
    → ((c : ℕ) → keeps c ≡ true → (c == b'@') ≡ false)
    → (s : Text) → NoAt (dashed keeps s)
unfolding dashed
dashed-NoAt keeps safe [] = tt
dashed-NoAt keeps safe (c ∷ s) = elim (Bool-cases (is_continuation c)) [
  | inl e ↦ rw e (dashed-NoAt keeps safe s)
  | inr e ↦ elim (Bool-cases (keeps c)) [
    | inl f ↦ rw (e, f) (safe c f, dashed-NoAt keeps safe s)
    | inr f ↦ rw (e, f) (refl, dashed-NoAt keeps safe s)
  ]
]

take-NoAt : (n : ℕ) (s : Text) → NoAt s → NoAt (take n s)
take-NoAt zero s a = tt
take-NoAt (suc n) [] a = tt
take-NoAt (suc n) (c ∷ s) (e, a) = (e, take-NoAt n s a)

cut_at_63-NoAt : (s : Text) → NoAt s → NoAt (cut_at_63 s)
cut_at_63-NoAt s a = elim (Bool-cases (ltb 63 (length s))) [
  | inl e ↦ rw e (take-NoAt 63 s a)
  | inr e ↦ rw e a
]

pub sanitize_name-NoAt : (s : Text) → NoAt (cut_at_63 (sanitize_name s))
unfolding sanitize_name
sanitize_name-NoAt s =
    cut_at_63-NoAt (sanitize_name s)
      (dashed-NoAt is_name_byte (λ c h. ground (arith, h)) (to_lower s))
