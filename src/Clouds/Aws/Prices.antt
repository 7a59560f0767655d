-- ===== src/Clouds/Aws/Prices.antt =====
-- pkg/provider/aws/client.go: the lowest price of each instance type in the history of spot prices. A
-- price that cannot be read is zero.
use gpuscale.Prelude.{
  ℕ, ◌≤◌, ◌<◌, ◌≡◌, refl, sym, ap, subst, ◌∙◌, ◌⊎◌, inl, inr, Bool, true, false, ltb, if◌then◌else◌,
  List, [], ◌∷◌, Option, none, some, Text, text_eq, text_eq_iff, text_eq_self, In, lookup, insert,
  lookup-insert, Bool-cases, arith,
}

abbrev is_lower : ℕ → Option ℕ → Bool
is_lower p none = true
is_lower p (some existing) = ltb p existing

-- The loop of `DescribeSpotPrices`.
unfoldable pub lowest_prices : List (Text × ℕ) → List (Text × ℕ) → List (Text × ℕ)
lowest_prices [] prices = prices
lowest_prices ((t, p) ∷ items) prices = lowest_prices items (
    if ltb 0 p
    then (if is_lower p (lookup t prices) then insert t p prices else prices)
    else prices)

module _ (t : Text) where
  -- The price is the lowest one of the type that is not zero, and there is none if there is no such
  -- price.
  abbrev pub IsLowest : List (Text × ℕ) → Option ℕ → Type 0
  IsLowest items none = (p : ℕ) → In (t, p) items → p ≡ 0
  IsLowest items (some p) = (0 < p) × In (t, p) items × ((q : ℕ) → In (t, q) items → 0 < q → p ≤ q)

  -- What the loop makes of a price: the lowest one of it and the positive prices that follow.
  abbrev lower_of : List (Text × ℕ) → Option ℕ → Option ℕ
  lower_of [] o = o
  lower_of ((u, p) ∷ items) o =
      lower_of items
        (if text_eq u t then (if ltb 0 p then (if is_lower p o then some p else o) else o) else o)

  lookup-lowest_prices :
      (items prices : List (Text × ℕ))
      → lookup t (lowest_prices items prices) ≡ lower_of items (lookup t prices)
  unfolding lowest_prices
  lookup-lowest_prices [] prices = refl
  lookup-lowest_prices ((u, p) ∷ items) prices =
      lookup-lowest_prices items next ∙ ap (lower_of items) step
    where
      next : List (Text × ℕ)
      next =
          if ltb 0 p
          then (if is_lower p (lookup u prices) then insert u p prices else prices)
          else prices

      step : lookup t next ≡ (
          if text_eq u t
          then (if ltb 0 p
              then (if is_lower p (lookup t prices) then some p else lookup t prices)
              else lookup t prices)
          else lookup t prices)
      step = elim (Bool-cases (text_eq u t)) [
        | inl e ↦ elim (Bool-cases (ltb 0 p)) [
          | inl f ↦ rw (e, f) (same ((text_eq_iff u t).0 e))
          | inr f ↦ rw (e, f) refl
        ]
        | inr e ↦ elim (Bool-cases (ltb 0 p)) [
          | inl f ↦
              rw (e, f)
                (elim (Bool-cases (is_lower p (lookup u prices))) [
                  | inl g ↦ rw g (lookup-insert u t p prices ∙ rw e refl)
                  | inr g ↦ rw g refl
                ])
          | inr f ↦ rw (e, f) refl
        ]
      ]
        where
          same :
              u ≡ t
              → lookup t (if is_lower p (lookup u prices) then insert u p prices else prices)
                ≡ (if is_lower p (lookup t prices) then some p else lookup t prices)
          same q =
              subst
                (λ x.
                  lookup t (if is_lower p (lookup x prices) then insert x p prices else prices)
                  ≡ (if is_lower p (lookup t prices) then some p else lookup t prices))
                (sym q)
                (elim (Bool-cases (is_lower p (lookup t prices))) [
                  | inl g ↦ rw g (lookup-insert t t p prices ∙ rw (text_eq_self t) refl)
                  | inr g ↦ rw g refl
                ])

  -- What the loop gives from a price on.
  abbrev From : Option ℕ → List (Text × ℕ) → Option ℕ → Type 0
  From o items none = (o ≡ none) × ((q : ℕ) → In (t, q) items → q ≡ 0)
  From o items (some p) =
      ((o ≡ some p) ⊎ ((0 < p) × In (t, p) items))
      × (((e : ℕ) → o ≡ some e → p ≤ e) × ((q : ℕ) → In (t, q) items → 0 < q → p ≤ q))

  second : {u : Text} {p q : ℕ} → ◌≡◌ {A = Text × ℕ} (u, p) (t, q) → p ≡ q
  second e = cc e

  -- An item that changes nothing: it is zero, of another type, or no lower than the price.
  skipped :
      (u : Text) (p : ℕ) (items : List (Text × ℕ)) (o r : Option ℕ)
      → (u ≡ t → (p ≡ 0) ⊎ ((e : ℕ) × (o ≡ some e) × (e ≤ p)))
      → From o items r
      → From o ((u, p) ∷ items) r
  skipped u p items o none idle (empty, all) = (
    empty,
    λ q i. elim i [
      | inr j ↦ all q j
      | inl here ↦ elim (idle (ap (λ x. x.0) here)) [
        | inl z ↦ sym (second here) ∙ z
        | inr (e, there, le) ↦ absurd (cc (empty, there))
      ]
    ],
  )
  skipped u p items o (some r) idle (origin, (below, all)) = (
    elim origin [ inl e ↦ inl e | inr (pos, i) ↦ inr (pos, inr i) ],
    (
      below,
      λ q i pos. elim i [
        | inr j ↦ all q j pos
        | inl here ↦ elim (idle (ap (λ x. x.0) here)) [
          | inl z ↦ absurd (omega (arith, z, second here, pos))
          | inr (e, there, le) ↦ omega (arith, below e there, le, second here)
        ]
      ],
    ),
  )

  taken :
      (p : ℕ) (items : List (Text × ℕ)) (o r : Option ℕ)
      → 0 < p
      → is_lower p o ≡ true
      → From (some p) items r
      → From o ((t, p) ∷ items) r
  taken p items o none pos low (empty, all) = absurd (cc empty)
  taken p items o (some r) pos low (origin, (below, all)) = (
    inr (elim origin [
      | inl e ↦ let q : p ≡ r = cc e in (subst (λ x. 0 < x) q pos, inl (ap (λ (x : ℕ). (t, x)) q))
      | inr (good, i) ↦ (good, inr i)
    ]),
    (
      λ e there.
          omega (arith, below p refl, lower_than e (subst (λ x. is_lower p x ≡ true) there low)),
      λ q i good. elim i [
        | inr j ↦ all q j good
        | inl here ↦ omega (arith, below p refl, second here)
      ],
    ),
  )
    where
      lower_than : (e : ℕ) → ltb p e ≡ true → p < e
      lower_than e h = ground (arith, h)

  not_lower : (p : ℕ) (o : Option ℕ) → is_lower p o ≡ false → (e : ℕ) × (o ≡ some e) × (e ≤ p)
  not_lower p none h = absurd (cc h)
  not_lower p (some e) h = (e, refl, ground (arith, h))

  lower_of-From : (items : List (Text × ℕ)) (o : Option ℕ) → From o items (lower_of items o)
  lower_of-From [] none = (refl, λ q i. absurd i)
  lower_of-From [] (some p) = (inl refl, ((λ e q. omega (arith, same e q)), λ q i. absurd i))
    where
      same : (e : ℕ) → some p ≡ some e → p ≡ e
      same e q = cc q
  lower_of-From ((u, p) ∷ items) o = elim (Bool-cases (text_eq u t)) [
    | inr e ↦ rw e (
        skipped u p items o (lower_of items o) (λ q. absurd (cc (e, (text_eq_iff u t).1 q)))
          (lower_of-From items o))
    | inl e ↦ elim (Bool-cases (ltb 0 p)) [
      | inr f ↦
          rw (e, f)
            (skipped u p items o (lower_of items o) (λ q. inl (ground (arith, f)))
              (lower_of-From items o))
      | inl f ↦ elim (Bool-cases (is_lower p o)) [
        | inr g ↦
            rw (e, f, g)
              (skipped u p items o (lower_of items o) (λ q. inr (not_lower p o g))
                (lower_of-From items o))
        | inl g ↦
            rw (e, f, g)
              (subst (λ x. From o ((x, p) ∷ items) (lower_of items (some p)))
                (sym ((text_eq_iff u t).0 e))
                (taken p items o (lower_of items (some p)) (ground (arith, f)) g
                  (lower_of-From items (some p))))
      ]
    ]
  ]

  From-IsLowest : (items : List (Text × ℕ)) (r : Option ℕ) → From none items r → IsLowest items r
  From-IsLowest items none (e, all) = all
  From-IsLowest items (some p) (inl e, rest) = absurd (cc e)
  From-IsLowest items (some p) (inr (pos, i), (below, all)) = (pos, i, all)

  pub lowest_prices-IsLowest :
      (items : List (Text × ℕ)) → IsLowest items (lookup t (lowest_prices items []))
  unfolding lookup
  lowest_prices-IsLowest items =
      subst (IsLowest items) (sym (lookup-lowest_prices items []))
        (From-IsLowest items (lower_of items none) (lower_of-From items none))
