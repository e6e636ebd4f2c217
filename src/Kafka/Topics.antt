-- ===== src/Kafka/Topics.antt =====
-- What Kafka promises of visit-counts and cluster-info, which are compacted: a reader gets the
-- messages in order, but compaction may have dropped one that a later message of its key replaces.
use pok.Kafka.{Message, Read, failed, message}
use pok.Prelude.Bytes.{Bytes, bytes_key}
use pok.Prelude.Int.{ℤ}
use pok.Prelude.Tests.{◌==◌, if◌then◌else◌}
use pok.Prelude.{◌≡◌, false, Option, none, some, List, [], ◌∷◌}

-- What is written has a key.
module _ {A : Type 0} (key_of : A → Bytes) where
  unfoldable pub last_keyed : Bytes → List A → Option A
  last_keyed u [] = none
  last_keyed u (a ∷ as_written) = elim (last_keyed u as_written) [
    | some x ↦ some x
    | none ↦ if key_of a == u then some a else none
  ]

-- `encode`, json.Marshal, gives the value.
module _ {A : Type 0} (key_of : A → Bytes) (encode : A → Bytes) where
  -- `written` is the clock at the writer.
  unfoldable pub topic_message : A → ℤ → Message
  topic_message a written = record { key = key_of a; value = encode a; time = written }

  -- The reads, among which some may fail and be tried again, deliver what was written.
  pub data Delivers {Extra : Type 0} : List A → List (Read Extra) → Type 0 where
    ended : Delivers [] []
    retried :
        {written : List A} {reads : List (Read Extra)}
        → Delivers written reads
        → Delivers written (failed false ∷ reads)
    delivered :
        {written : List A} {reads : List (Read Extra)} (a : A) (time : ℤ) (at : Extra)
        → Delivers written reads
        → Delivers (a ∷ written) (message (topic_message a time) at ∷ reads)
    compacted :
        {written : List A} {reads : List (Read Extra)} (a later : A)
        → last_keyed key_of (key_of a) written ≡ some later
        → Delivers written reads
        → Delivers (a ∷ written) reads
