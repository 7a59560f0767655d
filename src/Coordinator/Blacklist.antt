-- ===== src/Coordinator/Blacklist.antt =====
-- internal/coordinator/blacklist.go. The clock is an argument of each call.
pub mod Keys
pub mod Expiry
use gpuscale.Prelude.{
  ℕ, ◌+◌, ◌≤◌, ◌<◌, ◌≡◌, ◌↔◌, Bool, false, not, ltb, if◌then◌else◌, List, [], ◌∷◌, ◌++◌, Option,
  none, some, Text, txt, keep, count, lookup, insert, delete_if,
}
use gpuscale.Provider.{Offer}

pub record OfferBlacklist : Type 0 where
  -- "provider:offerID" → expiry timestamp
  pub entries : List (Text × ℕ)
  pub ttl : ℕ

unfoldable pub new_offer_blacklist : ℕ → OfferBlacklist
new_offer_blacklist ttl = record { entries = []; ttl = ttl }

unfoldable pub blacklist_key : Text → Text → Text
blacklist_key provider_name offer_id = provider_name ++ (txt ":" ++ offer_id)

unfoldable pub add_with_ttl : OfferBlacklist → ℕ → Text → Text → ℕ → OfferBlacklist
add_with_ttl b now provider_name offer_id ttl = record b {
  entries = insert (blacklist_key provider_name offer_id) (now + ttl) b.entries;
}

unfoldable pub add : OfferBlacklist → ℕ → Text → Text → OfferBlacklist
unfolding add_with_ttl
add b now provider_name offer_id = add_with_ttl b now provider_name offer_id b.ttl

-- `now.After(expiry)`
abbrev pub is_expired : ℕ → Text → ℕ → Bool
is_expired now k expiry = ltb expiry now

-- `expiry, blocked := b.entries[key]; blocked && now.Before(expiry)`
abbrev pub is_live : ℕ → Option ℕ → Bool
is_live now none = false
is_live now (some expiry) = ltb now expiry

unfoldable pub is_blocked : OfferBlacklist → ℕ → Text → Bool
is_blocked b now key = is_live now (lookup key b.entries)

abbrev pub offer_key : Offer → Text
offer_key o = blacklist_key o.provider_name o.offer_id

-- `Filter`: the cleaned-up blacklist, and the offers that pass.
unfoldable pub filter : OfferBlacklist → ℕ → List Offer → OfferBlacklist × List Offer
filter b now offers =
    let cleaned = record b { entries = delete_if (is_expired now) b.entries } in
    (cleaned, keep (λ o. not (is_blocked cleaned now (offer_key o))) offers)

unfoldable pub size : OfferBlacklist → ℕ → ℕ
size b now = count (λ e. ltb now e.1) b.entries
