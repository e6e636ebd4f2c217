-- ===== src/Cost/Attrs.antt =====
-- Attribute maps: `mergeAttrs` and `orUnknown` of apps/awscost/estimate.go, `withCostType` of
-- apps/awscost/poller.go. The two copies range over maps with one entry for each key, so the order
-- in which they write does not show in the result.
use pok.Prelude.Bytes.{Bytes, bytes, bytes_beq, bytes_key}
use pok.Prelude.Lists.{Distinct, length}
use pok.Prelude.Maps.{Map, keys, lookup, insert, lookup-insert, lookup_missing, contains-keys}
use pok.Prelude.Tests.{◌==◌, eq_iff, if◌then◌else◌}
use pok.Prelude.{◌≡◌, ◌≤◌, refl, Option, none, some, [], ◌∷◌, arith}

abbrev pub Attrs : Type 0
Attrs = Map Bytes Bytes

-- for k, v := range from { out[k] = v }
unfoldable pub copy_into : Attrs → Attrs → Attrs
copy_into [] out = out
copy_into ((k, v) ∷ from) out = copy_into from (insert k v out)

unfoldable pub merge_attrs : Attrs → Attrs → Attrs
unfolding copy_into
merge_attrs base extra = copy_into extra (copy_into base [])

unfoldable pub with_cost_type : Attrs → Bytes → Attrs
unfolding copy_into
with_cost_type attrs t = insert (bytes "cost.type") t (copy_into attrs [])

unfoldable pub or_unknown : Bytes → Bytes
or_unknown s = if s == [] then bytes "unknown" else s

abbrev pub over : Option Bytes → Option Bytes → Option Bytes
over none b = b
over (some a) b = some a

pub lookup-copy_into :
    (k : Bytes) (from out : Attrs)
    → Distinct (keys from)
    → lookup k (copy_into from out) ≡ over (lookup k from) (lookup k out)
unfolding copy_into lookup
lookup-copy_into k [] out d = refl
lookup-copy_into k ((j, v) ∷ from) out d = ground (
  arith,
  lookup-copy_into k from (insert j v out) d.1,
  lookup-insert j k v out,
  lookup_missing j from,
  contains-keys j from,
  eq_iff j k,
)

over-none : (a : Option Bytes) → over a none ≡ a
over-none none = refl
over-none (some a) = refl

-- The overlay has every entry of `extra`, and of `base` those whose keys `extra` lacks.
pub lookup-merge_attrs :
    (k : Bytes) (base extra : Attrs)
    → Distinct (keys base)
    → Distinct (keys extra)
    → lookup k (merge_attrs base extra) ≡ over (lookup k extra) (lookup k base)
unfolding merge_attrs lookup
lookup-merge_attrs k base extra db de = ground (
  arith,
  lookup-copy_into k extra (copy_into base []) de,
  lookup-copy_into k base [] db,
  over-none (lookup k base),
)

pub lookup-with_cost_type :
    (k : Bytes) (attrs : Attrs) (t : Bytes)
    → Distinct (keys attrs)
    → lookup k (with_cost_type attrs t)
      ≡ (if bytes "cost.type" == k then some t else lookup k attrs)
unfolding with_cost_type lookup
lookup-with_cost_type k attrs t d = ground (
  arith,
  lookup-insert (bytes "cost.type") k t (copy_into attrs []),
  lookup-copy_into k attrs [] d,
  over-none (lookup k attrs),
)

-- A label is never empty.
pub length-or_unknown : (s : Bytes) → 1 ≤ length (or_unknown s)
unfolding or_unknown bytes_beq
length-or_unknown [] = omega arith
length-or_unknown (c ∷ s) = omega arith
