-- ===== src/Controller/Interruption/Lost.antt =====
-- internal/controller/interruption.go: whose claims a poll terminates.
use gpuscale.Prelude.{◌≡◌, true, false, List, none, txt, text_eq, is_empty, In}
use gpuscale.Provider.{ok, Instance}
use gpuscale.Controller.Claims.{Claim}
use gpuscale.Controller.Interruption.{World, is_active, as_interrupted}

module _ (w : World) where
  -- The claim stands for an instance that its provider, asked about it, reports in another status
  -- than running or starting.
  pub record Lost (c : Claim) : Type 0 where
    pub active : is_active w c.status.phase ≡ true
    pub known : is_empty c.status.instance_id ≡ false
    pub provided : is_empty c.status.provider ≡ false
    pub registered : w.registered c.status.provider ≡ true
    pub instance_found : Instance
    pub answered : w.get_instance c.name c.status.provider c.status.instance_id ≡ ok instance_found
    pub not_running : text_eq instance_found.status (txt "running") ≡ false
    pub not_starting : text_eq instance_found.status (txt "starting") ≡ false

  -- A claim of the list that is lost, whose status can be written, and the status it then gets.
  pub Terminates : List Claim → Claim → Type 0
  Terminates cs d =
      (c : Claim) × In c cs × Lost c × (w.status_error c.name ≡ none) × (d ≡ as_interrupted w c)
