-- ===== src/Feed/Consume.antt =====
-- The two Kafka consumers: `consumeClusterInfo` and `consumeVisitCounts` of apps/wsfeed/main.go.
-- A consumer's run is the list of what its reads return; beside a message stand the clock that
-- `nowSec` would show and the order in which `publish` visits the clients. `valid` is `json.Valid`.
pub mod Latest
pub mod Subjects
pub mod Moves
mod Tests
use pok.Feed.Client.{Envelope}
use pok.Feed.Hub.{Hub, publish}
use pok.Kafka.{Message, Read, failed, message}
use pok.Prelude.Bytes.{Bytes, bytes, bytes_key}
use pok.Prelude.Int.{ℤ, is_nonpos}
use pok.Prelude.Lists.{length}
use pok.Prelude.Tests.{◌==◌, ltb, nat_beq, if◌then◌else◌}
use pok.Prelude.{ℕ, ◌≡◌, Bool, true, false, ◌||◌, not, Option, none, some, List, [], ◌∷◌, ◌++◌}

pub record Moment : Type 0 where
  pub now : ℤ
  pub order : List ℕ

abbrev pub max_visit_url_len : ℕ
max_visit_url_len = 256

-- strings.TrimPrefix(url, "/")
unfoldable pub trim_slash : Bytes → Bytes
trim_slash [] = []
trim_slash (c ∷ cs) = if nat_beq c b'/' then cs else c ∷ cs

-- The time of the message, or the clock where the broker gave none.
unfoldable pub stamp : Message → ℤ → ℤ
stamp m now = if is_nonpos m.time then now else m.time

unfoldable pub cluster_subject : Bytes → Bytes
cluster_subject key = bytes "cluster/" ++ (if key == [] then bytes "unknown" else key)

unfoldable pub visit_subject : Bytes → Bytes
unfolding trim_slash
visit_subject url = bytes "visit/" ++ trim_slash url

abbrev pub envelope_of : Bytes → Message → ℤ → Envelope
envelope_of subj m now = record {
  subject = subj;
  topic = subj;
  ts = stamp m now;
  payload = m.value;
}

module _ (valid : Bytes → Bool) where
  -- `none` is a message that the loop passes over.
  unfoldable pub cluster_envelope : Message → ℤ → Option Envelope
  cluster_envelope m now =
      if not (valid m.value) then none else some (envelope_of (cluster_subject m.key) m now)

  unfoldable pub visit_envelope : Message → ℤ → Option Envelope
  visit_envelope m now =
      if m.key == [] || ltb max_visit_url_len (length m.key)
      then none
      else if not (valid m.value)
      then none
      else some (envelope_of (visit_subject m.key) m now)

-- What one message does to the hub.
unfoldable pub relay : Option Envelope → List ℕ → Hub → Hub
relay none order h = h
relay (some e) order h = publish order e h

-- The loop ends when a read fails after the context is done; it retries after any other failure.
unfoldable pub consume : (Message → ℤ → Option Envelope) → List (Read Moment) → Hub → Hub
unfolding relay
consume handle [] h = h
consume handle (failed true ∷ reads) h = h
consume handle (failed false ∷ reads) h = consume handle reads h
consume handle (message m at ∷ reads) h = consume handle reads (relay (handle m at.now) at.order h)

unfoldable pub consume_cluster_info : (Bytes → Bool) → List (Read Moment) → Hub → Hub
unfolding consume
consume_cluster_info valid = consume (cluster_envelope valid)

unfoldable pub consume_visit_counts : (Bytes → Bool) → List (Read Moment) → Hub → Hub
unfolding consume
consume_visit_counts valid = consume (visit_envelope valid)
