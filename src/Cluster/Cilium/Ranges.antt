-- ===== src/Cluster/Cilium/Ranges.antt =====
-- The ranges of the cilium-lb-pools aspect.
use pok.Cluster.Cilium.{
  Dynamic, PoolItem, PoolsReport, string_at, range_from, block_ranges, pool_ranges, pool_of,
  aspect_cilium_lb_pools,
}
use pok.Cluster.Workloads.{msg}
use pok.Prelude.Bytes.{Bytes, bytes, bytes_beq, bytes_key}
use pok.Prelude.Lists.{length, length-append, length-map, All, All-append}
use pok.Prelude.Maps.{Map}
use pok.Prelude.Tests.{◌==◌, Option-cases, Bool-cases}
use pok.Prelude.{◌≤◌, ◌≡◌, refl, inl, inr, false, some, List, [], ◌∷◌, ◌++◌, map, arith}

abbrev pub IsNonempty : Bytes → Type 0
IsNonempty s = 1 ≤ length s

length-IsNonempty : (s : Bytes) → (s == []) ≡ false → IsNonempty s
unfolding bytes_beq
length-IsNonempty [] h = ground arith
length-IsNonempty (c ∷ s) h = omega arith

module _ (D : Dynamic) where
  range_from-IsNonempty :
      (start stop : Bytes) → (start == []) ≡ false → IsNonempty (range_from D start stop)
  unfolding range_from
  range_from-IsNonempty start stop h = ground (
    arith,
    length-append start (bytes "-"),
    length-append (start ++ bytes "-") stop,
    length-IsNonempty start h,
  )

  block_ranges-IsNonempty : (bm : Map Bytes D.Any) → All IsNonempty (block_ranges D bm)
  unfolding block_ranges
  block_ranges-IsNonempty bm = elim (Bool-cases (string_at D (bytes "cidr") bm == [])) [
    | inr e ↦ rw (e, All) (length-IsNonempty (string_at D (bytes "cidr") bm) e, tt)
    | inl e ↦ elim (Bool-cases (string_at D (bytes "start") bm == [])) [
      | inl f ↦ rw (e, All) (rw (f, All) tt)
      | inr f ↦
          rw (e, All)
            (rw (f, All)
              (
                range_from-IsNonempty (string_at D (bytes "start") bm)
                    (string_at D (bytes "stop") bm) f,
                tt,
              ))
    ]
  ]

  pool_ranges-IsNonempty : (blocks : List D.Any) → All IsNonempty (pool_ranges D blocks)
  unfolding pool_ranges
  pool_ranges-IsNonempty [] = tt
  pool_ranges-IsNonempty (b ∷ blocks) = elim (Option-cases (D.as_object b)) [
    | inl e ↦ rw (e, All) (pool_ranges-IsNonempty blocks)
    | inr (bm, e) ↦
        rw (e, All)
          (All-append IsNonempty (block_ranges D bm) (pool_ranges D blocks)
            (block_ranges-IsNonempty bm) (pool_ranges-IsNonempty blocks))
  ]

  pool_of-IsNonempty :
      (items : List (PoolItem D)) → All (λ p. All IsNonempty p.ranges) (map (pool_of D) items)
  unfolding pool_of
  pool_of-IsNonempty [] = tt
  pool_of-IsNonempty (it ∷ items) = (pool_ranges-IsNonempty it.blocks, pool_of-IsNonempty items)

  -- The report has one pool for each item, and whatever the blocks hold, no range in it is empty.
  pub aspect_cilium_lb_pools-IsNonempty :
      (items : List (PoolItem D))
      → (r : PoolsReport D) × ((aspect_cilium_lb_pools D (some items)
            ≡ some (record { aspect = bytes "cilium-lb-pools"; value = r }))
          × (length r.pools ≡ r.count)
          × All (λ p. All IsNonempty p.ranges) r.pools)
  unfolding aspect_cilium_lb_pools msg
  aspect_cilium_lb_pools-IsNonempty items = (
    record { count = length items; pools = map (pool_of D) items },
    (refl, length-map (pool_of D) items, pool_of-IsNonempty items),
  )
