-- ===== src/Pipeline/Polled.antt =====
-- What the hub of wsfeed holds in the end of the aspects that clusterinfo polls.
use pok.Cluster.Poll.Aspects.{Aspect}
use pok.Cluster.Poll.Calls.{Libraries, Api, Report, call}
use pok.Cluster.Poll.Keys.{key_of, key_of-ne-nil, key_of-ne-unknown, call-HasKey}
use pok.Cluster.Poll.Rounds.{last_report, poll_all-latest}
use pok.Cluster.Poll.{Round, poll_all}
use pok.Cluster.Workloads
use pok.Feed.Consume.Latest.{last_message, consume_cluster_info-latest}
use pok.Feed.Consume.{Moment, cluster_subject, consume_cluster_info}
use pok.Feed.Hub.{new_hub}
use pok.Kafka.Topics.{Delivers}
use pok.Kafka.{Read}
use pok.Pipeline.Relayed.{IsHeld, Agrees-IsHeld, Delivers-Agrees, new_hub-state}
use pok.Prelude.Bytes.{Bytes, bytes_key}
use pok.Prelude.Int.{ℤ}
use pok.Prelude.Maps.{lookup}
use pok.Prelude.{ℕ, ◌≡◌, Bool, true, List, []}

-- Let clusterinfo poll any number of rounds, and let wsfeed, from an empty hub on, read what a
-- compacted topic delivers of the messages written. Then for each aspect the hub holds under the
-- aspect's subject what the aspect's function returned in the last round that chose it, had an
-- answer and got the message written; and nothing if there was no such round.
pub polled-shown :
    (libs : Libraries) (valid : Bytes → Bool) (encode : Workloads.Message (Report libs) → Bytes)
    → ((m : Workloads.Message (Report libs)) → valid (encode m) ≡ true)
    → (rounds : List (Round (Api libs))) (start : ℤ) (reads : List (Read Moment)) (n : ℕ)
      (a : Aspect)
    → Delivers
        (λ (m : Workloads.Message (Report libs)). m.aspect)
        encode
        (poll_all (call libs) rounds (record { last_tick = start; written = [] })).written
        reads
    → IsHeld
        (λ (m : Workloads.Message (Report libs)). m.aspect)
        encode
        (last_report (call libs) a rounds)
        (lookup (cluster_subject (key_of a)) (consume_cluster_info valid reads (new_hub n)).state)
polled-shown libs valid encode encodes rounds start reads n a d =
    let keyed = λ (m : Workloads.Message (Report libs)). m.aspect in
    rw
      (consume_cluster_info-latest valid (key_of a) reads (new_hub n) (key_of-ne-nil a)
        (key_of-ne-unknown a))
      (rw (new_hub-state (cluster_subject (key_of a)) n) (
        rw (← poll_all-latest (call libs) (call-HasKey libs) a rounds start) (
          Agrees-IsHeld keyed encode (cluster_subject (key_of a)) _
            (last_message valid (key_of a) reads)
            (Delivers-Agrees keyed encode valid encodes (key_of a) d))))
