-- ===== src/Pipeline.antt =====
-- The way of a visit through the programs and the two topics between them: helloworld logs requests
-- to url-visits, visitcounter counts them and writes visit-counts, wsfeed relays that to browsers.
pub mod Logged
pub mod Relayed
pub mod Shown
pub mod Edge
pub mod Polled
pub mod Browser
mod Tests
use pok.Kafka.{Message, Read, failed, message}
use pok.Prelude.Bytes.{Bytes}
use pok.Prelude.Int.{ℤ}
use pok.Prelude.{Option, none, some, List, [], ◌∷◌}
use pok.Visits.{Moment, Count, publish_visit}

-- A request that helloworld serves, with the clock, and the moment at which visitcounter reads its
-- event.
pub record Visit : Type 0 where
  pub path : Bytes
  pub served : ℤ
  pub read_at : Moment

-- What visitcounter reads of url-visits. `event` makes the value of an event.
unfoldable pub logged : (Bytes → Bytes) → List Visit → List (Read Moment)
logged event [] = []
logged event (v ∷ visits) =
    let rest = logged event visits in
    elim (publish_visit event v.path v.served) [ none ↦ rest | some m ↦ message m v.read_at ∷ rest ]
