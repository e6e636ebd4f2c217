-- ===== src/Cost/Main.antt =====
-- `runLoops`, `serveHealth` and the environment of apps/awscost/main.go. The two tickers and the end
-- of the context are events in the order in which the `select` takes them; beside a tick stands what
-- the cycle meets.
pub mod Parsed
pub mod Loops
mod Tests
use pok.Cost.Inventory.{Instance, Volume}
use pok.Cost.Period.{Period, period}
use pok.Cost.Poller.{ByTime, Gauge, emit_estimated, emit_actual}
use pok.Cost.Prices.{Request, Pricer}
use pok.Prelude.Atoi.{atoi}
use pok.Prelude.Bytes.{Bytes, bytes, bytes_key}
use pok.Prelude.Floats.{Floats}
use pok.Prelude.Int.{ℤ, pos, negsuc, is_nonpos, ltb_ℤ, ◌-ℤ◌}
use pok.Prelude.Tests.{◌==◌, if◌then◌else◌}
use pok.Prelude.{ℕ, ◌+◌, ◌*◌, Bool, not, ◌||◌, Option, none, some, List, [], ◌∷◌, ◌++◌}

-- `getenv` is os.Getenv, and an unset variable is "".
unfoldable pub env_string : (Bytes → Bytes) → Bytes → Bytes → Bytes
env_string getenv name default = if not (getenv name == []) then getenv name else default

-- The three others parse; a value that does not parse counts as unset.
unfoldable pub env_parsed {ℓ} : {A : Type ℓ} → (Bytes → Option A) → (Bytes → Bytes) → Bytes → A → A
env_parsed parse getenv name default =
    if not (getenv name == [])
    then elim (parse (getenv name)) [ none ↦ default | some v ↦ v ]
    else default

unfoldable pub env_int : (Bytes → Bytes) → Bytes → ℤ → ℤ
unfolding env_parsed atoi
env_int = env_parsed atoi

unfoldable pub env_float : (F : Floats) → (Bytes → Bytes) → Bytes → F.Float → F.Float
unfolding env_parsed
env_float F = env_parsed λ s. if (F.parse_float s).1 then some (F.parse_float s).0 else none

-- `parse_duration` is time.ParseDuration, in nanoseconds.
unfoldable pub env_duration : (Bytes → Option ℤ) → (Bytes → Bytes) → Bytes → ℤ → ℤ
unfolding env_parsed
env_duration parse_duration = env_parsed parse_duration

-- The variables that main reads, with their defaults; an interval is in nanoseconds.
pub record Settings (F : Floats) : Type 0 where
  pub region : Bytes
  pub global_region : Bytes
  pub est_interval : ℤ
  pub act_interval : ℤ
  pub actual_days : ℤ
  pub ipv4_hourly : F.Float

abbrev hour : ℕ
hour = 3600 * 1000000000

unfoldable pub settings : (F : Floats) → (Bytes → Option ℤ) → F.Float → (Bytes → Bytes) → Settings F
unfolding env_string env_int env_float env_duration
settings F parse_duration flat_rate getenv = record {
  region = env_string getenv (bytes "AWS_REGION") (bytes "eu-west-1");
  global_region = env_string getenv (bytes "AWS_GLOBAL_REGION") (bytes "us-east-1");
  est_interval = env_duration parse_duration getenv (bytes "ESTIMATE_INTERVAL") (pos hour);
  act_interval = env_duration parse_duration getenv (bytes "ACTUAL_INTERVAL") (pos (24 * hour));
  actual_days = env_int getenv (bytes "ACTUAL_DAYS") (pos 2);
  ipv4_hourly = env_float F getenv (bytes "PUBLIC_IPV4_HOURLY_USD") flat_rate;
}

-- What a cycle of each kind meets.
pub record Estimate : Type 0 where
  pub now : ℤ
  pub credentials : Bool
  pub instances : Option (List (List Instance))
  pub volumes : Option (List Volume)

pub record Actual : Type 0 where
  pub now : ℕ
  pub credentials : Bool
  pub cost_explorer : Period → Option (List ByTime)

pub data Event : Type 0 where
  estimate_tick : Estimate → Event
  actual_tick : Actual → Event
  done : Event

module _ (F : Floats) (decode : Bytes → Option (List (List Bytes)))
    (get_products : List Request → Request → Option (List Bytes)) (actual_days : ℤ) where
  pub record State : Type 0 where
    pub pricer : Pricer F decode get_products
    -- the heartbeat, in seconds
    pub last_tick : ℤ
    pub emitted : List (Gauge F)

  unfoldable pub estimate : Estimate → State → State
  estimate e s =
      let r = emit_estimated F decode get_products e.credentials e.instances e.volumes s.pricer in
      record { pricer = r.1.1; last_tick = e.now; emitted = s.emitted ++ r.0 }

  unfoldable pub actual : Actual → State → State
  actual a s =
      let out = a.cost_explorer (period actual_days a.now) in
      record s { emitted = s.emitted ++ (emit_actual F a.credentials out).0 }

  unfoldable pub loop : List Event → State → State
  unfolding estimate actual
  loop [] s = s
  loop (done ∷ events) s = s
  loop (estimate_tick e ∷ events) s = loop events (estimate e s)
  loop (actual_tick a ∷ events) s = loop events (actual a s)

  -- Both cycles run once at the start. `none` is the panic of time.NewTicker, which wants an interval
  -- above 0.
  unfoldable pub run_loops : ℤ → ℤ → Estimate → Actual → List Event → State → Option State
  unfolding loop
  run_loops est_interval act_interval e a events s =
      if is_nonpos est_interval || is_nonpos act_interval
      then none
      else some (loop events (actual a (estimate e s)))

abbrev seconds : ℤ → ℤ
seconds (pos n) = pos (n * 1000000000)
seconds (negsuc n) = pos 0 -ℤ pos ((n + 1) * 1000000000)

-- Whether /healthz answers 200: the clock is in nanoseconds.
unfoldable pub is_ticking : ℤ → ℤ → ℤ → Bool
is_ticking stall_after now last_tick = not (ltb_ℤ stall_after (now -ℤ seconds last_tick))
