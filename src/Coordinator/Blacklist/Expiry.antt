-- ===== src/Coordinator/Blacklist/Expiry.antt =====
-- internal/coordinator/blacklist.go: for how long an entry blocks an offer.
use gpuscale.Prelude.{
  ℕ, ◌+◌, ◌≤◌, ◌≡◌, refl, ap, ◌∙◌, ◌↔◌, Bool, true, false, not, ltb, if◌then◌else◌, List, [], ◌∷◌,
  Option, none, some, Text, text_eq, count, In, In-keep, keep-In, lookup, delete_if, lookup-insert,
  lookup-delete_if, Distinct, insert-Distinct, delete_if-Distinct, unless, arith,
}
use gpuscale.Provider.{Offer}
use gpuscale.Coordinator.Blacklist.{
  OfferBlacklist, blacklist_key, add_with_ttl, add, is_blocked, is_live, is_expired, offer_key,
  filter, size,
}

-- The entry blocks its key until the lifetime is over, replacing an earlier entry of that key, and
-- leaves every other key as it was.
pub is_blocked-add_with_ttl :
    (b : OfferBlacklist) (now ttl later : ℕ) (provider_name offer_id key : Text)
    → is_blocked (add_with_ttl b now provider_name offer_id ttl) later key ≡ (
        if text_eq (blacklist_key provider_name offer_id) key
        then ltb later (now + ttl)
        else is_blocked b later key)
unfolding is_blocked add_with_ttl
is_blocked-add_with_ttl b now ttl later p o key =
    ground (arith, ap (is_live later) (lookup-insert (blacklist_key p o) key (now + ttl) b.entries))

cleaned : OfferBlacklist → ℕ → OfferBlacklist
cleaned b now = record b { entries = delete_if (is_expired now) b.entries }

is_live-unless :
    (now later : ℕ) (key : Text) (e : Option ℕ)
    → now ≤ later
    → is_live later (unless (is_expired now key) e) ≡ is_live later e
is_live-unless now later key none h = refl
is_live-unless now later key (some expiry) h = ground arith

is_blocked-cleaned :
    (b : OfferBlacklist) (now later : ℕ) (key : Text)
    → Distinct b.entries
    → now ≤ later
    → is_blocked (cleaned b now) later key ≡ is_blocked b later key
unfolding is_blocked cleaned
is_blocked-cleaned b now later key d h =
    ap (is_live later) (lookup-delete_if (is_expired now) key b.entries d)
    ∙ is_live-unless now later key (lookup key b.entries) h

-- The cleanup is unobservable: after a filter at `now` the same keys are blocked as before it, at
-- that time and later, and the entries' keys stay distinct.
pub is_blocked-filter :
    (b : OfferBlacklist) (now later : ℕ) (offers : List Offer) (key : Text)
    → Distinct b.entries
    → now ≤ later
    → Distinct (filter b now offers).0.entries
      × (is_blocked (filter b now offers).0 later key ≡ is_blocked b later key)
unfolding filter cleaned
is_blocked-filter b now later offers key d h =
    (delete_if-Distinct (is_expired now) b.entries d, is_blocked-cleaned b now later key d h)

pub add-Distinct :
    (b : OfferBlacklist) (now ttl : ℕ) (p o : Text)
    → Distinct b.entries
    → Distinct (add_with_ttl b now p o ttl).entries
unfolding add_with_ttl
add-Distinct b now ttl p o d = insert-Distinct (blacklist_key p o) (now + ttl) b.entries d

is_off : (a : Bool) → not a ≡ true → a ≡ false
is_off true h = absurd (cc)
is_off false h = refl

-- An offer passes exactly when it was given and its key is not blocked at that time.
pub filter_iff :
    (b : OfferBlacklist) (now : ℕ) (offers : List Offer) (o : Offer)
    → Distinct b.entries
    → In o (filter b now offers).1 ↔ (In o offers × (is_blocked b now (offer_key o) ≡ false))
unfolding filter cleaned
filter_iff b now offers o d =
    let same = is_blocked-cleaned b now now (offer_key o) d (omega arith) in
    let passes = λ (x : Offer). not (is_blocked (cleaned b now) now (offer_key x)) in
    (
      λ i. let (given, p) = In-keep passes o offers i in (given, rw same at (is_off _ p)),
      λ (given, p). keep-In passes o offers given (ap not (same ∙ p)),
    )

-- After a failed offer is blacklisted, filters drop it until the blacklist's lifetime is over and
-- let it through from then on, and treat an offer of another key as before.
pub filter-add :
    (b : OfferBlacklist) (now later : ℕ) (p i : Text) (offers : List Offer) (o : Offer)
    → Distinct b.entries
    → In o (filter (add b now p i) later offers).1 ↔ (
        In o offers
        × ((if text_eq (blacklist_key p i) (offer_key o)
              then ltb later (now + b.ttl)
              else is_blocked b later (offer_key o))
            ≡ false))
unfolding add
filter-add b now later p i offers o d =
    rw (← is_blocked-add_with_ttl b now b.ttl later p i (offer_key o))
      (filter_iff (add_with_ttl b now p i b.ttl) later offers o (add-Distinct b now b.ttl p i d))

-- Cleanup drops no entry that counts: the size reported is the same after a filter.
pub size-filter :
    (b : OfferBlacklist) (now later : ℕ) (offers : List Offer)
    → now ≤ later
    → size (filter b now offers).0 later ≡ size b later
unfolding size filter delete_if
size-filter b now later offers h = entries b.entries
  where
    entries :
        (m : List (Text × ℕ))
        → count (λ e. ltb later e.1) (delete_if (is_expired now) m) ≡ count (λ e. ltb later e.1) m
    entries [] = refl
    entries ((k, expiry) ∷ m) = ground (arith, entries m)
