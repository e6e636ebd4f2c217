-- ===== src/Cost/Main/Loops.antt =====
-- What holds over the whole life of the process.
use pok.Cluster.Sorting.{count, count-append}
use pok.Cost.Estimate.{Sample, ComputeResource}
use pok.Cost.Inventory.{inventory}
use pok.Cost.Main.{
  Estimate, Actual, Event, estimate_tick, actual_tick, done, State, estimate, actual, loop,
  run_loops,
}
use pok.Cost.Period.{period}
use pok.Cost.Poller.Ensured.{ensure_prices-Grows, ensure_prices-answered}
use pok.Cost.Poller.{
  ByTime, Gauge, CostRecord, metric_credentials_ok, estimated_metric, estimated_gauge, emit_samples,
  emit_inventory, emit_estimated, actual_gauge, emit_records, emit_actual,
}
use pok.Cost.Prices.Cached.{IsAnswering, IsThrifty}
use pok.Cost.Prices.Grown.{Grows, Grows-refl, Grows-trans}
use pok.Cost.Prices.{Request, Pricer}
use pok.Prelude.Bytes.{Bytes, bytes_beq, bytes_key}
use pok.Prelude.Floats.{Floats}
use pok.Prelude.Int.{ℤ, is_nonpos}
use pok.Prelude.Tests.{if◌then◌else◌, ◌==◌, Bool-cases, Option-cases}
use pok.Prelude.{
  ℕ, suc, ◌+◌, ◌≡◌, ◌||◌, refl, ap, inl, inr, Bool, true, false, Option, none, some, List, [], ◌∷◌,
  arith,
}

module _ (F : Floats) (decode : Bytes → Option (List (List Bytes)))
    (get_products : List Request → Request → Option (List Bytes)) (actual_days : ℤ) where
  -- What a step of the pricer keeps.
  record IsStep (p p' : Pricer F decode get_products) : Type 0 where
    grows : Grows F p.book p'.book
    thrifty :
        IsAnswering F decode get_products
        → IsThrifty F decode get_products p
        → IsThrifty F decode get_products p'

  IsStep-refl : (p : Pricer F decode get_products) → IsStep p p
  IsStep-refl p = record { grows = Grows-refl F p.book; thrifty = λ a t. t }

  emit_estimated-IsStep :
      (e : Estimate) (p : Pricer F decode get_products)
      → IsStep p (emit_estimated F decode get_products e.credentials e.instances e.volumes p).1.1
  unfolding emit_estimated emit_inventory
  emit_estimated-IsStep e p = elim (Bool-cases e.credentials) [
    | inr h ↦ rw h (IsStep-refl p)
    | inl h ↦ rw h (elim (Option-cases (inventory e.instances e.volumes)) [
      | inl k ↦ rw k (IsStep-refl p)
      | inr (inv, k) ↦ rw k (record {
        grows = ensure_prices-Grows F decode get_products inv p;
        thrifty = λ a t. (ensure_prices-answered F decode get_products inv p a t).0;
      })
    ])
  ]

  loop-IsStep :
      (events : List (Event)) (s : State F decode get_products actual_days)
      → IsStep s.pricer (loop F decode get_products actual_days events s).pricer
  unfolding loop estimate actual
  loop-IsStep [] s = IsStep-refl s.pricer
  loop-IsStep (done ∷ events) s = IsStep-refl s.pricer
  loop-IsStep (estimate_tick e ∷ events) s =
      let one = emit_estimated-IsStep e s.pricer in
      let rest = loop-IsStep events (estimate F decode get_products actual_days e s) in
      record {
        grows = Grows-trans F _ _ _ one.grows rest.grows;
        thrifty = λ a t. rest.thrifty a (one.thrifty a t);
      }
  loop-IsStep (actual_tick a ∷ events) s =
      loop-IsStep events (actual F decode get_products actual_days a s)

  -- With intervals above 0 main's two cycles and its loop run; with another there is a panic.
  run_loops_lem :
      (est_interval act_interval : ℤ) (e : Estimate) (a : Actual) (events : List Event)
      (s : State F decode get_products actual_days)
      → is_nonpos est_interval ≡ false
      → is_nonpos act_interval ≡ false
      → run_loops F decode get_products actual_days est_interval act_interval e a events s
        ≡ some
            (loop F decode get_products actual_days (estimate_tick e ∷ (actual_tick a ∷ events)) s)
  unfolding run_loops
  run_loops_lem est_interval act_interval e a events s h k = rw (h, k)

  -- With intervals above 0, an API that answers every request with a price, and at the start a pricer
  -- that has sent a request for each rate of its book, as a new one has: over the whole run no cached
  -- rate changes, and in the end the pricer has again sent one request for each rate of its book.
  pub run_loops-IsThrifty :
      (est_interval act_interval : ℤ) (e : Estimate) (a : Actual) (events : List Event)
      (s : State F decode get_products actual_days)
      → is_nonpos est_interval ≡ false
      → is_nonpos act_interval ≡ false
      → IsAnswering F decode get_products
      → IsThrifty F decode get_products s.pricer
      → (s' : State F decode get_products actual_days) × (run_loops F decode get_products
            actual_days est_interval act_interval e a events s
          ≡ some s')
        × Grows F s.pricer.book s'.pricer.book
        × IsThrifty F decode get_products s'.pricer
  run_loops-IsThrifty est_interval act_interval e a events s h k answers thrifty =
      let r = loop-IsStep (estimate_tick e ∷ (actual_tick a ∷ events)) s in
      (
        loop F decode get_products actual_days (estimate_tick e ∷ (actual_tick a ∷ events)) s,
        run_loops_lem est_interval act_interval e a events s h k,
        r.grows,
        r.thrifty answers thrifty,
      )

  abbrev is_heartbeat : Gauge F → Bool
  is_heartbeat g = g.name == metric_credentials_ok

  count-emit_samples : (samples : List (Sample F)) → count is_heartbeat (emit_samples F samples) ≡ 0
  unfolding emit_samples estimated_gauge estimated_metric bytes_beq
  count-emit_samples [] = refl
  count-emit_samples (s ∷ samples) = count-emit_samples samples

  count-emit_records :
      (records : List (CostRecord F)) → count is_heartbeat (emit_records F records) ≡ 0
  unfolding emit_records actual_gauge bytes_beq
  count-emit_records [] = refl
  count-emit_records (r ∷ records) = count-emit_records records

  count-emit_inventory :
      (o : Option (List ComputeResource)) (p : Pricer F decode get_products)
      → count is_heartbeat (emit_inventory F decode get_products o p).0 ≡ 0
  unfolding emit_inventory
  count-emit_inventory none p = refl
  count-emit_inventory (some inv) p = count-emit_samples _

  count-emit_estimated :
      (e : Estimate) (p : Pricer F decode get_products)
      → count is_heartbeat
          (emit_estimated F decode get_products e.credentials e.instances e.volumes p).0
        ≡ 1
  unfolding emit_estimated bytes_beq
  count-emit_estimated e p = elim (Bool-cases e.credentials) [
    | inl h ↦ rw h (ap suc (count-emit_inventory (inventory e.instances e.volumes) p))
    | inr h ↦ rw h
  ]

  count-emit_actual :
      (credentials : Bool) (out : Option (List ByTime))
      → count is_heartbeat (emit_actual F credentials out).0 ≡ 0
  unfolding emit_actual
  count-emit_actual false out = refl
  count-emit_actual true none = refl
  count-emit_actual true (some results) = count-emit_records _

  -- The estimate cycles until the context is done, and the time of the last.
  abbrev pub cycles : List Event → ℕ
  cycles [] = 0
  cycles (done ∷ events) = 0
  cycles (estimate_tick e ∷ events) = suc (cycles events)
  cycles (actual_tick a ∷ events) = cycles events

  abbrev pub last_cycle : ℤ → List Event → ℤ
  last_cycle now [] = now
  last_cycle now (done ∷ events) = now
  last_cycle now (estimate_tick e ∷ events) = last_cycle e.now events
  last_cycle now (actual_tick a ∷ events) = last_cycle now events

  loop-heartbeat :
      (events : List Event) (s : State F decode get_products actual_days)
      → let s' = loop F decode get_products actual_days events s in
        (count is_heartbeat s'.emitted ≡ count is_heartbeat s.emitted + cycles events)
        × (s'.last_tick ≡ last_cycle s.last_tick events)
  unfolding loop estimate actual
  loop-heartbeat [] s = (omega arith, refl)
  loop-heartbeat (done ∷ events) s = (omega arith, refl)
  loop-heartbeat (estimate_tick e ∷ events) s =
      let rest = loop-heartbeat events (estimate F decode get_products actual_days e s) in
      let r = emit_estimated F decode get_products e.credentials e.instances e.volumes s.pricer in
      (
        omega (
          arith,
          rest.0,
          count-append is_heartbeat s.emitted r.0,
          count-emit_estimated e s.pricer,
        ),
        rest.1,
      )
  loop-heartbeat (actual_tick a ∷ events) s =
      let rest = loop-heartbeat events (actual F decode get_products actual_days a s) in
      let out = (emit_actual F a.credentials (a.cost_explorer (period actual_days a.now))).0 in
      (
        omega (
          arith,
          rest.0,
          count-append is_heartbeat s.emitted out,
          count-emit_actual a.credentials (a.cost_explorer (period actual_days a.now)),
        ),
        rest.1,
      )

  -- With intervals above 0, and until its context is done, the process emits the credentials gauge once
  -- in each estimate cycle, that at the start included, and never in an actual cycle, whatever AWS
  -- answers; and the heartbeat that /healthz reads is the time at which the last estimate cycle began.
  -- With an interval of 0 or less it panics before the first cycle.
  pub run_loops-heartbeat :
      (est_interval act_interval : ℤ) (e : Estimate) (a : Actual) (events : List Event)
      (s : State F decode get_products actual_days)
      → (s' : State F decode get_products actual_days) × (run_loops F decode get_products
            actual_days est_interval act_interval e a events s
          ≡ (if is_nonpos est_interval || is_nonpos act_interval then none else some s'))
        × (count is_heartbeat s'.emitted ≡ count is_heartbeat s.emitted + 1 + cycles events)
        × (s'.last_tick ≡ last_cycle e.now events)
  unfolding run_loops
  run_loops-heartbeat est_interval act_interval e a events s =
      let r = loop-heartbeat (estimate_tick e ∷ (actual_tick a ∷ events)) s in
      (
        loop F decode get_products actual_days (estimate_tick e ∷ (actual_tick a ∷ events)) s,
        refl,
        omega (arith, r.0),
        r.1,
      )
