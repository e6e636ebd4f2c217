-- ===== src/Cost/Main/Parsed.antt =====
-- A number in the environment, and the period that it makes.
use pok.Cost.Main.{env_parsed, env_int, settings}
use pok.Cost.Period.Asked.{Names, period-Names}
use pok.Cost.Period.{end_day, period}
use pok.Prelude.Atoi.{atoi, atoi-format_int, format_int-ne-nil}
use pok.Prelude.Bytes.{Bytes, bytes, bytes_key}
use pok.Prelude.Decimal.{format_int, IsInt64}
use pok.Prelude.Floats.{Floats}
use pok.Prelude.Int.{ℤ, pos}
use pok.Prelude.Tests.{◌==◌}
use pok.Prelude.{ℕ, ◌+◌, ◌-◌, ◌*◌, ◌^◌, ◌≤◌, ◌<◌, ◌≡◌, ◌∙◌, ap, false, Option, some, [], arith}

-- A variable that holds a value in a form that parses is read as that value.
env_parsed_set :
    {A : Type 0} (parse : Bytes → Option A) (getenv : Bytes → Bytes) (name : Bytes) (default v : A)
    → (getenv name == []) ≡ false
    → parse (getenv name) ≡ some v
    → env_parsed parse getenv name default ≡ v
unfolding env_parsed
env_parsed_set parse getenv name default v h e = rw h (rw e)

-- An int64 in decimal form is read as itself, whatever the default.
pub env_int-format_int :
    (getenv : Bytes → Bytes) (name : Bytes) (default z : ℤ)
    → IsInt64 z
    → getenv name ≡ format_int z
    → env_int getenv name default ≡ z
unfolding env_int
env_int-format_int getenv name default z h e =
    env_parsed_set atoi getenv name default z (rw e (format_int-ne-nil z h))
      (ap atoi e ∙ atoi-format_int z h)

-- If ACTUAL_DAYS holds a number of days in decimal form, which do not lead back before year 1, Cost
-- Explorer is asked for a period of so many days, whose end is the day of `now` in UTC: it holds
-- completed days only.
pub settings-period :
    (F : Floats) (parse_duration : Bytes → Option ℤ) (flat_rate : F.Float) (getenv : Bytes → Bytes)
    (days now : ℕ)
    → getenv (bytes "ACTUAL_DAYS") ≡ format_int (pos days)
    → days ≤ end_day now
    → now < 2 ^ 63
    → let p = period (settings F parse_duration flat_rate getenv).actual_days now in
      (end : ℕ) × Names p.end end
      × Names p.start (end - days)
      × ((end - 719162) * 86400 ≤ now)
      × (now < (end - 719162 + 1) * 86400)
unfolding settings
settings-period F parse_duration flat_rate getenv days now e h b =
    rw
      (env_int-format_int getenv (bytes "ACTUAL_DAYS") (pos 2) (pos days)
        (unfold end_day in omega arith) e)
      (period-Names days now h b)
