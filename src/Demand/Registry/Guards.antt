-- ===== src/Demand/Registry/Guards.antt =====
-- internal/controller/demandstore.go: the guards at the head of each method.
use gpuscale.Prelude.{
  ◌≡◌, refl, ◌⊎◌, inl, inr, true, false, Bool, not, ◌||◌, if◌then◌else◌, Text, is_empty,
}
use gpuscale.Demand.Redis.{World, M, return}
use gpuscale.Demand.Registry.{if_named}

pub if_true : {A : Type 0} (b : Bool) (x y : A) → b ≡ true → (if b then x else y) ≡ x
if_true b x y h = rw h refl

module _ {A : Type 0} (w : World) (a : A) (name : Text) (m : M A) where
  pub if_named-open : w.connected ≡ true → is_empty name ≡ false → if_named w a name m ≡ m
  if_named-open c e = rw (c, e) refl

  pub if_named-shut : is_empty name ≡ true → if_named w a name m ≡ return a
  if_named-shut e = rw e (by_connection w.connected)
    where
      by_connection : (c : Bool) → (if not c || true then return a else m) ≡ return a
      by_connection true = refl
      by_connection false = refl

  -- What a guarded method gives is its default, or what its body gives.
  pub if_named-cases : (if_named w a name m ≡ return a) ⊎ (if_named w a name m ≡ m)
  if_named-cases = either (not w.connected || is_empty name)
    where
      either :
          (b : Bool) → ((if b then return a else m) ≡ return a) ⊎ ((if b then return a else m) ≡ m)
      either true = inl refl
      either false = inr refl
