-- ===== src/Kafka.antt =====
-- The fields of a kafka-go message that the apps read or write, and what a blocking read returns.
pub mod Topics
use pok.Prelude.Bytes.{Bytes}
use pok.Prelude.Int.{ℤ}
use pok.Prelude.{Bool}

pub record Message : Type 0 where
  pub key : Bytes
  pub value : Bytes
  -- m.Time.Unix()
  pub time : ℤ

-- One `ReadMessage`. An error is told by whether the context is done.
pub data Read {ℓ} (Extra : Type ℓ) : Type ℓ where
  failed : Bool → Read Extra
  message : Message → Extra → Read Extra
