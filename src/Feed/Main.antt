-- ===== src/Feed/Main.antt =====
-- What `main` of apps/wsfeed/main.go reads from its environment, and `drain`, by which it waits for the
-- sessions at the end.
pub mod Admits
pub mod Drained
mod Tests
use pok.Feed.Hub.Steps.{Action, act}
use pok.Feed.Hub.{Hub, new_hub}
use pok.Prelude.Atoi.{atoi_value}
use pok.Prelude.Bytes.{Bytes, bytes}
use pok.Prelude.Env.{env}
use pok.Prelude.Int.{ℤ, pos, is_nonpos, pos_part}
use pok.Prelude.Tests.{nat_beq, if◌then◌else◌}
use pok.Prelude.{ℕ, Bool, true, false, Option, none, some, List, [], ◌∷◌}

-- WS_MAX_CLIENTS, where the error of strconv.Atoi is dropped.
unfoldable pub max_clients : (Bytes → Bytes) → ℕ
unfolding env atoi_value
max_clients getenv =
    let n = atoi_value (env getenv (bytes "WS_MAX_CLIENTS") (bytes "256")) in
    if is_nonpos n then 256 else pos_part n

unfoldable pub feed : (Bytes → Bytes) → Hub
unfolding max_clients new_hub
feed getenv = new_hub (max_clients getenv)

abbrev before_all : ℕ → List Bytes → List Bytes
before_all c [] = (c ∷ []) ∷ []
before_all c (part ∷ parts) = (c ∷ part) ∷ parts

-- The parts between commas: strings.Split(s, ",")
unfoldable pub split_comma : Bytes → List Bytes
split_comma [] = [] ∷ []
split_comma (c ∷ s) =
    let rest = split_comma s in if nat_beq c b',' then [] ∷ rest else before_all c rest

unfoldable pub allowed_origins : (Bytes → Bytes) → List Bytes
unfolding env split_comma
allowed_origins getenv = split_comma (
    env getenv (bytes "ALLOWED_ORIGINS")
      (bytes "pok.somegroup.net,demo.somegroup.net,dev.somegroup.net"))

-- While `drain` waits: what happens to the hub, the goroutine in which sessions.Wait() returns, and
-- the end of the timeout.
pub data Waiting : Type 0 where
  acts : Action → Waiting
  waited : Waiting
  timed_out : Waiting

-- What `drain` returns, with the hub at that time; `none` if it still waits, or a session panics.
unfoldable pub drain : List Waiting → Hub → Option (Bool × Hub)
drain [] h = none
drain (timed_out ∷ events) h = some (false, h)
drain (waited ∷ events) h =
    let rest = drain events h in if nat_beq h.sessions 0 then some (true, h) else rest
drain (acts a ∷ events) h = elim (act a h) [ none ↦ none | some g ↦ drain events g ]
