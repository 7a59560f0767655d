-- ===== src/Clouds/Verda/Client/Tokens.antt =====
-- pkg/provider/verda/client.go: which tokens the requests carry, where several requests overlap.
use gpuscale.Prelude.{
  ℕ, suc, ◌+◌, ◌*◌, ◌==◌, ◌≡◌, ◌<◌, ◌⊎◌, inl, inr, refl, arith, subst, ltb→lt, true, not, ltb,
  Bool-cases, ==_iff, &&_iff, List, [], ◌∷◌, Option, none, some, Text, is_empty, keep, All, In,
  All-map, All-In,
}
use gpuscale.Clouds.Http.{Request, Response, Answer, unsent, answered, Decoded, malformed, decoded}
use gpuscale.Clouds.Verda.Client.{
  Wire, Session, Sent, Grant, second, new_client, looked, expiry, has_live_token, keep_token, renew,
  authenticate, send,
}

Decoded-cases :
    {A : Type 0} (d : Decoded A) → ((e : Text) × (d ≡ malformed e)) ⊎ ((a : A) × (d ≡ decoded a))
Decoded-cases (malformed e) = inl (e, refl)
Decoded-cases (decoded a) = inr (a, refl)

module _ (w : Wire) where
  -- The sessions that requests reach which overlap in any order, with the looks at the token after which
  -- a request was not sent yet.
  pub data Overlap : Session → List ℕ → Type 0 where
    started : Overlap new_client []
    checked :
        (s : Session) (ns : List ℕ)
        → Overlap s ns
        → (authenticate w s).1 ≡ none
        → Overlap (authenticate w s).0 (s.asked ∷ ns)
    refused :
        (s : Session) (ns : List ℕ) (e : Text)
        → Overlap s ns
        → (authenticate w s).1 ≡ some e
        → Overlap (authenticate w s).0 ns
    sent :
        (s : Session) (ns : List ℕ) (q : Request) (n : ℕ)
        → Overlap s ns
        → In n ns
        → Overlap (send w q n s).0 (keep (λ m. not (m == n)) ns)

  -- The answer to this question granted this.
  abbrev pub Granted : ℕ → Grant → Type 0
  Granted k g =
      (r : Response) × (w.token_answer k ≡ answered r)
      × (r.status ≡ 200)
      × (w.token_of r.body ≡ decoded g)

  -- The token was granted after this look, or at this look had more than a minute left.
  abbrev pub IsBacked : ℕ → Text → Type 0
  IsBacked n token =
      (k : ℕ) × (g : Grant) × (Granted k g
        × (token ≡ g.access_token)
        × ((n < k) ⊎ (w.clock n + second * 60 < w.clock (suc k) + second * g.expires_in)))

  abbrev IsKnown : Session → Type 0
  IsKnown s =
      (s.access_token ≡ [])
      ⊎ ((k : ℕ) × (g : Grant) × (Granted k g
            × (s.access_token ≡ g.access_token)
            × (s.token_expiry ≡ expiry w k g)))

  abbrev IsWaiting : Session → ℕ → Type 0
  IsWaiting s n = (n < s.asked) × IsBacked n s.access_token

  abbrev pub SentBacked : Sent → Type 0
  SentBacked x = IsBacked x.checked x.token

  abbrev Holds : Session → List ℕ → Type 0
  Holds s ns = IsKnown s × All (IsWaiting s) ns × All SentBacked s.sent

  has_live_token-IsBacked :
      (s : Session) → IsKnown s → has_live_token w s ≡ true → IsBacked s.asked s.access_token
  unfolding has_live_token
  has_live_token-IsBacked s (inl e) h = absurd (cc (rw e at h))
  has_live_token-IsBacked s (inr (k, g, (granted, same, until))) h =
      let soon =
        ltb→lt (w.clock s.asked) s.token_expiry
          ((&&_iff (not (is_empty s.access_token)) (ltb (w.clock s.asked) s.token_expiry)).0 h).1 in
      (k, g, (granted, same, inr (omega (arith, soon, until))))

  -- Looking does not change the token.
  looked-Holds : (m : ℕ) (s : Session) (ns : List ℕ) → Holds s ns → Holds (looked w m s) ns
  looked-Holds m s ns (known, waiting, backed) =
      (known, All-map ns (λ n (before, b). (omega (arith, before), b)) waiting, backed)

  -- A token that is granted now covers every request that waits.
  keep_token-Holds :
      (s : Session) (ns : List ℕ) (g : Grant)
      → Granted (suc s.asked) g
      → Holds s ns
      → Holds (keep_token w s (decoded g)).0 (s.asked ∷ ns)
  keep_token-Holds s ns g granted (known, waiting, backed) = (
    inr (suc s.asked, g, (granted, refl, refl)),
    (
      (omega arith, (suc s.asked, g, (granted, refl, inl (omega arith)))),
      All-map ns
          (λ n (before, b).
            (omega (arith, before), (suc s.asked, g, (granted, refl, inl (omega (arith, before))))))
          waiting,
    ),
    backed,
  )

  -- With the request itself among those that wait, where it got its token.
  abbrev waiting_after : ℕ → Option Text → List ℕ → List ℕ
  waiting_after n (some e) ns = ns
  waiting_after n none ns = n ∷ ns

  abbrev HoldsAfter : ℕ → List ℕ → Session × Option Text → Type 0
  HoldsAfter n ns (s, e) = Holds s (waiting_after n e ns)

  renew-Holds :
      (s : Session) (ns : List ℕ) (a : Answer)
      → w.token_answer (suc s.asked) ≡ a
      → Holds s ns
      → HoldsAfter s.asked ns (renew w s a)
  renew-Holds s ns (unsent e) asked h = looked-Holds 2 s ns h
  renew-Holds s ns (answered r) asked h = elim (Bool-cases (r.status == 200)) [
    | inr other ↦ rw other (looked-Holds 2 s ns h)
    | inl good ↦ rw good (elim (Decoded-cases (w.token_of r.body)) [
      | inl (e, bad) ↦ rw bad (looked-Holds 2 s ns h)
      | inr (g, read) ↦
          rw read (keep_token-Holds s ns g (r, asked, (==_iff r.status 200).0 good, read) h)
    ])
  ]

  authenticate-Holds :
      (s : Session) (ns : List ℕ) → Holds s ns → HoldsAfter s.asked ns (authenticate w s)
  unfolding authenticate
  authenticate-Holds s ns h = elim (Bool-cases (has_live_token w s)) [
    | inr stale ↦ rw stale (renew-Holds s ns (w.token_answer (suc s.asked)) refl h)
    | inl live ↦ rw live (
        let (known, waiting, backed) = looked-Holds 1 s ns h in
        (known, ((omega arith, has_live_token-IsBacked s h.0 live), waiting), backed))
  ]

  All-keep_other :
      (P : ℕ → Type 0) (n : ℕ) (ns : List ℕ) → All P ns → All P (keep (λ m. not (m == n)) ns)
  All-keep_other P n [] a = tt
  All-keep_other P n (m ∷ ns) (p, ps) = elim (Bool-cases (m == n)) [
    | inl same ↦ rw same (All-keep_other P n ns ps)
    | inr other ↦ rw other (p, All-keep_other P n ns ps)
  ]

  Overlap-Holds : (s : Session) (ns : List ℕ) → Overlap s ns → Holds s ns
  unfolding send
  Overlap-Holds _ _ started = (inl refl, tt, tt)
  Overlap-Holds _ _ (checked s ns r got) =
      subst (λ e. Holds (authenticate w s).0 (waiting_after s.asked e ns)) got
        (authenticate-Holds s ns (Overlap-Holds s ns r))
  Overlap-Holds _ _ (refused s ns e r failed) =
      subst (λ x. Holds (authenticate w s).0 (waiting_after s.asked x ns)) failed
        (authenticate-Holds s ns (Overlap-Holds s ns r))
  Overlap-Holds _ _ (sent s ns q n r i) =
      let (known, waiting, backed) = Overlap-Holds s ns r in
      (
        known,
        All-keep_other (IsWaiting (send w q n s).0) n ns
            (All-map ns (λ m (before, b). (omega (arith, before), b)) waiting),
        ((All-In (IsWaiting s) n ns waiting i).1, backed),
      )

  -- Whatever the order in which requests overlap, each request that was sent carries a token that
  -- an answer to the client's own request for one, with status 200, granted; and this token was
  -- granted after the request looked at the token, or had at that look more than a minute of its
  -- lifetime left.
  pub Overlap-SentBacked : (s : Session) (ns : List ℕ) → Overlap s ns → All SentBacked s.sent
  Overlap-SentBacked s ns r = (Overlap-Holds s ns r).2
