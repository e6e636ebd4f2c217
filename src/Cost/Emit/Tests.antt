-- ===== src/Cost/Emit/Tests.antt =====
-- Three points of two metrics.
use pok.Cost.Attrs.{Attrs}
use pok.Cost.Emit.{new_emitter, gauge_all, gauge_all-once}
use pok.Prelude.Bytes.{Bytes, bytes, bytes_key}
use pok.Prelude.Lists.{contains, Distinct}
use pok.Prelude.Maps.{has}
use pok.Prelude.{ℕ, ◌≡◌, Option, some, List, [], ◌∷◌}

-- The instrument is its name.
abbrev meter : List Bytes → Bytes → Option Bytes
meter created name = some name

abbrev points : List (Bytes × (ℕ × Attrs))
points = (bytes "a", (1, [])) ∷ (bytes "b", (2, [])) ∷ (bytes "a", (3, [])) ∷ []

gauge_all-once_example :
    let e = gauge_all ℕ Bytes meter points (new_emitter ℕ Bytes meter) in
    Distinct e.created × ((name : Bytes) → contains name e.created ≡ has name e.gauges)
gauge_all-once_example = gauge_all-once ℕ Bytes meter points
