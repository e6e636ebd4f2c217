-- ===== src/Cost/Emit.antt =====
-- The instruments of the OTel emitter, one for each metric name: apps/awscost/emit.go. The meter is
-- a parameter, which creates an instrument or fails, and may know which were asked for before.
mod Tests
use mathlib.Core.List.{map-append, append-nil, append_assoc}
use pok.Cost.Attrs.{Attrs}
use pok.Prelude.Bytes.{Bytes, bytes_key}
use pok.Prelude.Lists.{length, contains, contains-snoc, Distinct, Distinct-snoc}
use pok.Prelude.Maps.{
  Map, lookup, has, insert, has-insert, lookup_missing, lookup_present, lookup-insert,
}
use pok.Prelude.Tests.{◌==◌, eq_iff, eq_refl, if◌then◌else◌, Bool-cases, Option-cases}
use pok.Prelude.{
  ◌≡◌, refl, sym, inl, inr, Bool, true, false, Option, none, some, List, [], ◌∷◌, ◌++◌, map, arith,
}

module _ (Value Instrument : Type 0) (float64_gauge : List Bytes → Bytes → Option Instrument) where
  pub record Emitter : Type 0 where
    pub gauges : Map Bytes Instrument
    -- the names that the meter created an instrument for, the latest last
    pub created : List Bytes
    -- what was recorded, the latest last
    pub recorded : List (Instrument × (Value × Attrs))

  unfoldable pub new_emitter : Emitter
  new_emitter = record { gauges = []; created = []; recorded = [] }

  unfoldable pub gauge_for : Bytes → Emitter → Option Instrument × Emitter
  gauge_for name e = elim (lookup name e.gauges) [
    | some g ↦ (some g, e)
    | none ↦ elim (float64_gauge e.created name) [
      | none ↦ (none, e)
      | some g ↦
          (some g, record e { gauges = insert name g e.gauges; created = e.created ++ name ∷ [] })
    ]
  ]

  -- A point without an instrument is dropped.
  unfoldable pub gauge : Bytes → Value → Attrs → Emitter → Emitter
  unfolding gauge_for
  gauge name value attrs e =
      let (g, e') = gauge_for name e in
      elim g [
        | none ↦ e'
        | some i ↦ record e' { recorded = e'.recorded ++ (i, (value, attrs)) ∷ [] }
      ]

  unfoldable pub gauge_all : List (Bytes × (Value × Attrs)) → Emitter → Emitter
  unfolding gauge
  gauge_all [] e = e
  gauge_all ((name, (value, attrs)) ∷ points) e = gauge_all points (gauge name value attrs e)

  -- No name was created twice, and those created are those in the cache.
  pub record IsCached (e : Emitter) : Type 0 where
    pub once : Distinct e.created
    pub cached : (name : Bytes) → contains name e.created ≡ has name e.gauges

  gauge_for_known :
      (name : Bytes) (e : Emitter) (g : Instrument)
      → lookup name e.gauges ≡ some g
      → gauge_for name e ≡ (some g, e)
  unfolding gauge_for
  gauge_for_known name e g h = rw (h, gauge_for) refl

  gauge_for_new :
      (name : Bytes) (e : Emitter) (g : Instrument)
      → lookup name e.gauges ≡ none
      → float64_gauge e.created name ≡ some g
      → gauge_for name e
        ≡ (some g, record e { gauges = insert name g e.gauges; created = e.created ++ name ∷ [] })
  unfolding gauge_for
  gauge_for_new name e g h k = rw (h, gauge_for) (rw k refl)

  gauge_for_failed :
      (name : Bytes) (e : Emitter)
      → lookup name e.gauges ≡ none
      → float64_gauge e.created name ≡ none
      → gauge_for name e ≡ (none, e)
  unfolding gauge_for
  gauge_for_failed name e h k = rw (h, gauge_for) (rw k refl)

  insert-IsCached :
      (name : Bytes) (e : Emitter) (g : Instrument)
      → lookup name e.gauges ≡ none
      → IsCached e
      → IsCached (record e { gauges = insert name g e.gauges; created = e.created ++ name ∷ [] })
  insert-IsCached name e g h c = record {
    once =
        Distinct-snoc name e.created
          (ground
            (arith, c.cached name, lookup_present name e.gauges, Bool-cases (has name e.gauges)))
          c.once;
    cached = λ other. ground (
      arith,
      c.cached other,
      contains-snoc other name e.created,
      has-insert name other g e.gauges,
    );
  }

  gauge_for-IsCached : (name : Bytes) (e : Emitter) → IsCached e → IsCached (gauge_for name e).1
  gauge_for-IsCached name e c = elim (Option-cases (lookup name e.gauges)) [
    | inr (g, h) ↦ rw (gauge_for_known name e g h) c
    | inl h ↦ elim (Option-cases (float64_gauge e.created name)) [
      | inl k ↦ rw (gauge_for_failed name e h k) c
      | inr (g, k) ↦ rw (gauge_for_new name e g h k) (insert-IsCached name e g h c)
    ]
  ]

  gauge-IsCached :
      (name : Bytes) (value : Value) (attrs : Attrs) (e : Emitter)
      → IsCached e
      → IsCached (gauge name value attrs e)
  unfolding gauge
  gauge-IsCached name value attrs e c = elim (Option-cases (gauge_for name e).0) [
    | inl h ↦ rw (h, gauge) (gauge_for-IsCached name e c)
    | inr (i, h) ↦
        let c' = gauge_for-IsCached name e c in
        rw (h, gauge) (record { once = c'.once; cached = c'.cached })
  ]

  gauge_all-IsCached :
      (points : List (Bytes × (Value × Attrs))) (e : Emitter)
      → IsCached e
      → IsCached (gauge_all points e)
  unfolding gauge_all
  gauge_all-IsCached [] e c = c
  gauge_all-IsCached ((name, (value, attrs)) ∷ points) e c =
      gauge_all-IsCached points (gauge name value attrs e) (gauge-IsCached name value attrs e c)

  gauge_for-some :
      (name : Bytes) (e : Emitter)
      → ((created : List Bytes) (n : Bytes) → (g : Instrument) × (float64_gauge created n ≡ some g))
      → (g : Instrument) × ((gauge_for name e).0 ≡ some g)
  gauge_for-some name e works = elim (Option-cases (lookup name e.gauges)) [
    | inr (g, h) ↦ (g, rw (gauge_for_known name e g h) refl)
    | inl h ↦ let (g, k) = works e.created name in (g, rw (gauge_for_new name e g h k) refl)
  ]

  recorded-gauge_for : (name : Bytes) (e : Emitter) → (gauge_for name e).1.recorded ≡ e.recorded
  recorded-gauge_for name e = elim (Option-cases (lookup name e.gauges)) [
    | inr (g, h) ↦ rw (gauge_for_known name e g h) refl
    | inl h ↦ elim (Option-cases (float64_gauge e.created name)) [
      | inl k ↦ rw (gauge_for_failed name e h k) refl
      | inr (g, k) ↦ rw (gauge_for_new name e g h k) refl
    ]
  ]

  -- The values and attributes recorded.
  abbrev pub points_of : List (Instrument × (Value × Attrs)) → List (Value × Attrs)
  points_of = map λ r. r.1

  recorded-gauge :
      (name : Bytes) (value : Value) (attrs : Attrs) (e : Emitter)
      → ((created : List Bytes) (n : Bytes) → (g : Instrument) × (float64_gauge created n ≡ some g))
      → points_of (gauge name value attrs e).recorded ≡ points_of e.recorded ++ (value, attrs) ∷ []
  unfolding gauge
  recorded-gauge name value attrs e works =
      let (g, h) = gauge_for-some name e works in
      rw (h, gauge)
        (rw (recorded-gauge_for name e)
          (map-append (λ r. r.1) e.recorded ((g, (value, attrs)) ∷ [])))

  recorded-gauge_all :
      (points : List (Bytes × (Value × Attrs))) (e : Emitter)
      → ((created : List Bytes) (n : Bytes) → (g : Instrument) × (float64_gauge created n ≡ some g))
      → points_of (gauge_all points e).recorded ≡ points_of e.recorded ++ map (λ p. p.1) points
  unfolding gauge_all
  recorded-gauge_all [] e works = sym (append-nil (points_of e.recorded))
  recorded-gauge_all ((name, (value, attrs)) ∷ points) e works = cc (
    recorded-gauge_all points (gauge name value attrs e) works,
    recorded-gauge name value attrs e works,
    append_assoc (points_of e.recorded) ((value, attrs) ∷ []) (map (λ p. p.1) points),
  )

  new_emitter-IsCached : IsCached new_emitter
  unfolding contains has new_emitter
  new_emitter-IsCached = record { once = tt; cached = λ name. refl }

  -- Whatever is emitted, an instrument is created once at most for a name, and the cache holds those
  -- that were created.
  pub gauge_all-once :
      (points : List (Bytes × (Value × Attrs)))
      → let e = gauge_all points new_emitter in
        Distinct e.created × ((name : Bytes) → contains name e.created ≡ has name e.gauges)
  gauge_all-once points =
      let c = gauge_all-IsCached points new_emitter new_emitter-IsCached in (c.once, c.cached)

  -- With a meter that never fails every point is recorded, in order.
  pub gauge_all-recorded :
      (points : List (Bytes × (Value × Attrs)))
      → ((created : List Bytes) (n : Bytes) → (g : Instrument) × (float64_gauge created n ≡ some g))
      → points_of (gauge_all points new_emitter).recorded ≡ map (λ p. p.1) points
  unfolding new_emitter
  gauge_all-recorded points works = recorded-gauge_all points new_emitter works
