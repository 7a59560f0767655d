-- ===== src/Controller/Examples/Sweeps.antt =====
-- internal/controller/instancegc.go: the theorems of the garbage collector at concrete inputs.
use gpuscale.Prelude.{[], ◌∷◌, none, txt}
use gpuscale.Provider.{ok}
use gpuscale.Controller.Gc

-- A provider lists an instance that no claim knows.
abbrev orphaned : Gc.World
orphaned = record {
  claims = ok [];
  providers = txt "aws" ∷ [];
  list_instances = λ p. ok (txt "i-9" ∷ []);
  destroy = λ p id. none;
}
