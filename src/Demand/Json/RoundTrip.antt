-- ===== src/Demand/Json/RoundTrip.antt =====
-- internal/controller/demandstore.go: a volume record is read back as it was written.
use gpuscale.Prelude.{◌≡◌, refl, some, lookup, text_eq}
use gpuscale.Demand.Json.{VolumeInfo, marshal_volume, unmarshal_volume}

pub unmarshal_volume-marshal : (v : VolumeInfo) → unmarshal_volume (marshal_volume v) ≡ some v
unfolding unmarshal_volume marshal_volume lookup text_eq
unmarshal_volume-marshal v = refl
