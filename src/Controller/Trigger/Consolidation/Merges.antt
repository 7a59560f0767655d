-- ===== src/Controller/Trigger/Consolidation/Merges.antt =====
-- internal/controller/provisiontrigger.go: which claims a consolidation merges.
use gpuscale.Prelude.{
  ◌+◌, ◌≤◌, ◌≡◌, refl, sym, ap, subst, ◌∙◌, inl, inr, Bool, true, false, not, ltb, List, [], ◌∷◌,
  Option, none, some, Text, any, All, In, Bool-cases, Option-cases, arith,
}
use gpuscale.Provider.{Error, Result, ok, err}
use gpuscale.Controller.Claims.{Claim, Pool}
use gpuscale.Controller.Provisioner.{find_pool}
use gpuscale.Controller.Provisioner.Limits.{find_pool-In}
use gpuscale.Controller.Trigger.{max_bundle_vram_gb}
use gpuscale.Controller.Trigger.Consolidation.{
  World, Candidate, Groups, Merged, nothing, refused, panicked, created, group_key, group_claims,
  covers_both, bin_packed_claim_exists, can_merge, first_partner, first_pair, first_in_groups,
  bin_packed_claim, create_claim, packed_in, packed_among, create_bin_packed_claim,
  check_consolidation,
}
use gpuscale.Controller.Trigger.Consolidation.Grouping.{
  IsCandidate, InGroup, IsGrouped, group_claims-IsGrouped,
}
use gpuscale.Controller.Trigger.Consolidation.Order.{
  Before, group_claims-IsOrdered, first_in_groups-Before,
}

module _ (w : World) (claims : List Claim) where
  -- A pair that the search may give.
  pub record IsPair (a b : Candidate) : Type 0 where
    pub first : IsCandidate w claims a
    pub second : IsCandidate w claims b
    pub same_group : group_key a.claim ≡ group_key b.claim
    pub fits : a.cfg.vram_required + b.cfg.vram_required ≤ max_bundle_vram_gb
    pub unserved :
        All (λ c. covers_both w a.claim.spec.model_id b.claim.spec.model_id c ≡ false) claims

  any-All : (p : Claim → Bool) (cs : List Claim) → any p cs ≡ false → All (λ c. p c ≡ false) cs
  any-All p [] h = tt
  any-All p (c ∷ cs) h = elim (Bool-cases (p c)) [
    | inl e ↦ absurd (cc (rw e at h))
    | inr e ↦ (e, any-All p cs (rw e at h))
  ]

  can_merge-IsPair :
      (key : Text) (a b : Candidate)
      → InGroup w claims key a
      → InGroup w claims key b
      → can_merge w claims a b ≡ true
      → IsPair a b
  unfolding can_merge bin_packed_claim_exists
  can_merge-IsPair key a b (i, p) (j, q) h =
      elim (Bool-cases (ltb max_bundle_vram_gb (a.cfg.vram_required + b.cfg.vram_required))) [
        | inl e ↦ absurd (cc (rw e at h))
        | inr e ↦ record {
          first = i;
          second = j;
          same_group = p ∙ sym q;
          fits = ground arith;
          unserved = any-All _ claims (unnot _ (rw e at h));
        }
      ]
    where
      unnot : (x : Bool) → not x ≡ true → x ≡ false
      unnot true e = cc
      unnot false e = refl

  first_partner-IsPair :
      (key : Text) (a b : Candidate) (bs : List Candidate)
      → InGroup w claims key a
      → All (InGroup w claims key) bs
      → first_partner w claims a bs ≡ some b
      → IsPair a b
  unfolding first_partner
  first_partner-IsPair key a b [] i g h = absurd (cc h)
  first_partner-IsPair key a b (x ∷ bs) i g h = elim (Bool-cases (can_merge w claims a x)) [
    | inl e ↦
        let same : x ≡ b = cc (rw e at h) in
        subst (λ y. IsPair a y) same (can_merge-IsPair key a x i g.0 e)
    | inr e ↦ first_partner-IsPair key a b bs i g.1 (rw e at h)
  ]

  first_pair-IsPair :
      (key : Text) (a b : Candidate) (ks : List Candidate)
      → All (InGroup w claims key) ks
      → first_pair w claims ks ≡ some (a, b)
      → IsPair a b
  unfolding first_pair
  first_pair-IsPair key a b [] g h = absurd (cc h)
  first_pair-IsPair key a b (x ∷ ks) g h = elim (Option-cases (first_partner w claims x ks)) [
    | inl e ↦ first_pair-IsPair key a b ks g.1 (rw e at h)
    | inr (y, e) ↦
        let same : some (x, y) ≡ some (a, b) = rw e at h in
        subst (λ (p : Candidate × Candidate). IsPair p.0 p.1) (cc same)
          (first_partner-IsPair key x y ks g.0 g.1 e)
  ]

  first_in_groups-IsPair :
      (a b : Candidate) (g : Groups)
      → All (IsGrouped w claims) g
      → first_in_groups w claims g ≡ some (a, b)
      → IsPair a b
  unfolding first_in_groups
  first_in_groups-IsPair a b [] i h = absurd (cc h)
  first_in_groups-IsPair a b ((key, ks) ∷ g) i h = elim (Option-cases (first_pair w claims ks)) [
    | inl e ↦ first_in_groups-IsPair a b g i.1 (rw e at h)
    | inr (p, e) ↦
        let same : p ≡ (a, b) = cc (rw e at h) in
        first_pair-IsPair key a b ks i.0 (e ∙ ap some same)
  ]

  -- The claim that takes over from two others.
  pub record IsMerge (c : Claim) : Type 0 where
    pub first : Candidate
    pub second : Candidate
    pub pair : IsPair first second
    pub apart : Before first.claim second.claim claims
    pub pool : Pool
    pub pooled : (pools : List Pool) × (w.list_pools ≡ ok pools) × In pool pools
    pub in_pool : c.spec.pool_ref ≡ pool.name
    pub models : c.spec.model_ids ≡ first.claim.spec.model_id ∷ second.claim.spec.model_id ∷ []
    pub vram : c.spec.requirements.min_vram ≡ first.cfg.vram_required + second.cfg.vram_required
    pub uncapped : c.spec.requirements.max_vram ≡ 0

  abbrev Right : Merged → Type 0
  Right nothing = Unit
  Right refused = Unit
  Right panicked = Unit
  Right (created c) = IsMerge c

  create_bin_packed_claim-Right :
      (a b : Candidate)
      → IsPair a b
      → Before a.claim b.claim claims
      → Right (create_bin_packed_claim w (a ∷ b ∷ []))
  unfolding create_bin_packed_claim
  create_bin_packed_claim-Right a b p q = among w.list_pools refl
    where
      in_pool :
          (pools : List Pool) (o : Option Pool)
          → w.list_pools ≡ ok pools
          → ((x : Pool) → o ≡ some x → In x pools)
          → Right (packed_in w a (a ∷ b ∷ []) o)
      in_pool pools none l i = tt
      in_pool pools (some pool) l i = made w.create_error
        where
          made :
              (e : Option Error) → Right (create_claim w e (bin_packed_claim w pool a (a ∷ b ∷ [])))
          made (some e) = tt
          made none = record {
            first = a;
            second = b;
            pair = p;
            apart = q;
            pool = pool;
            pooled = (pools, l, i pool refl);
            in_pool = refl;
            models = refl;
            vram = omega arith;
            uncapped = refl;
          }

      among : (r : Result (List Pool)) → w.list_pools ≡ r → Right (packed_among w a (a ∷ b ∷ []) r)
      among (err e) l = tt
      among (ok pools) l =
          in_pool pools (find_pool pools a.cfg.pool a.cfg.node_type) l
            (find_pool-In pools a.cfg.pool a.cfg.node_type)

  -- A consolidation creates a claim only for two Ready claims at different places of the list, of
  -- one model each, whose pools and types of node give one key, whose models fit the largest
  -- single node together and which no claim that is not going serves both already; the new claim
  -- is for just these two models, asks for their VRAM with no upper bound, and stands in a listed
  -- pool.
  pub check_consolidation-IsMerge :
      (c : Claim) → check_consolidation w claims ≡ created c → IsMerge c
  unfolding check_consolidation
  check_consolidation-IsMerge c h =
      let groups = group_claims w 0 claims [] in
      let grouped = group_claims-IsGrouped w claims 0 claims [] (λ x i. i) tt in
      elim (Option-cases (first_in_groups w claims groups)) [
        | inl e ↦ absurd (cc (rw e at h))
        | inr ((a, b), e) ↦ subst Right (rw e at h) (
            create_bin_packed_claim-Right a b (first_in_groups-IsPair a b groups grouped e) (
              first_in_groups-Before w claims a b groups
                (group_claims-IsOrdered w 0 [] claims [] tt) e))
      ]
