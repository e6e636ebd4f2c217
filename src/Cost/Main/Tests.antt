-- ===== src/Cost/Main/Tests.antt =====
-- A run of three ticks over two listed instances, of which one cycle has no credentials.
use pok.Cluster.Sorting.{count}
use pok.Cost.Main.Loops.{run_loops-IsThrifty, run_loops-heartbeat}
use pok.Cost.Main.Parsed.{settings-period}
use pok.Cost.Main.{
  Estimate, Actual, Event, estimate_tick, actual_tick, done, State, run_loops, settings,
}
use pok.Cost.Period.Asked.{Names}
use pok.Cost.Period.{end_day, period}
use pok.Cost.Poller.{Gauge, metric_credentials_ok}
use pok.Cost.Prices.Cached.{IsAnswering, IsThrifty}
use pok.Cost.Prices.Grown.{Grows}
use pok.Cost.Prices.{price_in, parse_on_demand_usd, scan_offers, new_price_book}
use pok.Cost.Samples.{dollars, one_offer, five_dollars, fresh, disk, listed}
use pok.Prelude.Bytes.{Bytes, bytes, bytes_beq, bytes_key}
use pok.Prelude.Decimal.{format_int, digits}
use pok.Prelude.Int.{ℤ, pos}
use pok.Prelude.Tests.{◌==◌}
use pok.Prelude.{
  ℕ, ◌+◌, ◌-◌, ◌*◌, ◌≤◌, ◌<◌, ◌≡◌, refl, true, false, Option, none, some, List, [], ◌∷◌, arith,
}

answers : IsAnswering dollars one_offer five_dollars
unfolding price_in parse_on_demand_usd scan_offers bytes_beq
answers sent q = (5, refl)

thrifty : IsThrifty dollars one_offer five_dollars fresh
unfolding new_price_book
thrifty = refl

abbrev started : State dollars one_offer five_dollars (pos 2)
started = record { pricer = fresh; last_tick = pos 1; emitted = [] }

abbrev estimate_at : ℕ → Estimate
estimate_at now = record {
  now = pos now;
  credentials = true;
  instances = some listed;
  volumes = some (disk ∷ []);
}

abbrev unanswered : Actual
unanswered = record { now = 1709337600; credentials = true; cost_explorer = λ p. none }

abbrev events : List Event
events =
    estimate_tick (estimate_at 20)
    ∷ actual_tick unanswered
    ∷ estimate_tick (record (estimate_at 30) { credentials = false })
    ∷ done
    ∷ estimate_tick (estimate_at 40)
    ∷ []

run_loops-IsThrifty_example :
    (s' : State dollars one_offer five_dollars (pos 2)) × (run_loops dollars one_offer five_dollars
        (pos 2)
        (pos 9)
        (pos 7)
        (estimate_at 10)
        unanswered
        events
        started
      ≡ some s')
    × Grows dollars fresh.book s'.pricer.book
    × IsThrifty dollars one_offer five_dollars s'.pricer
run_loops-IsThrifty_example =
    run_loops-IsThrifty dollars one_offer five_dollars (pos 2) (pos 9) (pos 7) (estimate_at 10)
      unanswered events started refl refl answers thrifty

abbrev gauges : List (Gauge dollars) → ℕ
gauges = count λ g. g.name == metric_credentials_ok

run_loops-heartbeat_example :
    (s' : State dollars one_offer five_dollars (pos 2)) × (run_loops dollars one_offer five_dollars
        (pos 2)
        (pos 9)
        (pos 7)
        (estimate_at 10)
        unanswered
        events
        started
      ≡ some s')
    × (gauges s'.emitted ≡ 0 + 1 + 2)
    × (s'.last_tick ≡ pos 30)
run_loops-heartbeat_example =
    run_loops-heartbeat dollars one_offer five_dollars (pos 2) (pos 9) (pos 7) (estimate_at 10)
      unanswered events started

-- ESTIMATE_INTERVAL=0
run_loops_zero :
    run_loops dollars one_offer five_dollars
      (pos 2)
      (pos 0)
      (pos 7)
      (estimate_at 10)
      unanswered
      events
      started
    ≡ none
unfolding run_loops
run_loops_zero = refl

-- The value of every variable.
abbrev three : Bytes → Bytes
three name = bytes "3"

three_digits : three (bytes "ACTUAL_DAYS") ≡ format_int (pos 3)
unfolding format_int digits
three_digits = refl

abbrev no_duration : Bytes → Option ℤ
no_duration s = none

settings-period_example :
    let p = period (settings dollars no_duration 1 three).actual_days 1709337600 in
    (end : ℕ) × Names p.end end
    × Names p.start (end - 3)
    × ((end - 719162) * 86400 ≤ 1709337600)
    × (1709337600 < (end - 719162 + 1) * 86400)
settings-period_example =
    settings-period dollars no_duration 1 three 3 1709337600 three_digits
      (unfold end_day in omega arith) (omega arith)
