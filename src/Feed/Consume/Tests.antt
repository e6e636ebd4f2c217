-- ===== src/Feed/Consume/Tests.antt =====
-- Three reads of the cluster-info topic, one of them not JSON, and a URL under two spellings.
use pok.Feed.Consume.Latest.{
  last_message, relayed, consume_cluster_info-latest, consume_visit_counts-latest,
}
use pok.Feed.Consume.Subjects.{IsSlashed, visit_subject-shared}
use pok.Feed.Consume.{
  Moment, trim_slash, cluster_subject, visit_subject, cluster_envelope, stamp, consume_cluster_info,
  consume_visit_counts,
}
use pok.Feed.Hub.{new_hub, publish}
use pok.Kafka.{Read, failed, message}
use pok.Prelude.Bytes.{Bytes, bytes, bytes_beq, bytes_key}
use pok.Prelude.Int.{pos, negsuc}
use pok.Prelude.Lists.{head_or}
use pok.Prelude.Maps.{lookup, insert}
use pok.Prelude.Tests.{◌==◌}
use pok.Prelude.{◌≡◌, ◌↔◌, ◌⊎◌, refl, ap, Bool, true, false, not, some, List, [], ◌∷◌, arith}

-- Stands for json.Valid on these values.
abbrev not_empty : Bytes → Bool
not_empty b = not (b == [])

abbrev at_noon : Moment
at_noon = record { now = pos 12; order = [] }

abbrev reads : List (Read Moment)
reads =
    message (record { key = bytes "nodes"; value = bytes "{}"; time = pos 5 }) at_noon
    ∷ failed false
    ∷ message (record { key = bytes "nodes"; value = bytes "[]"; time = negsuc 3 }) at_noon
    ∷ message (record { key = bytes "nodes"; value = []; time = pos 7 }) at_noon
    ∷ failed true
    ∷ message (record { key = bytes "nodes"; value = bytes "1"; time = pos 9 }) at_noon
    ∷ []

-- The second message is the last valid one, and the clock stands for its missing time.
latest_nodes :
    lookup (bytes "cluster/nodes") (consume_cluster_info not_empty reads (new_hub 1)).state
    ≡ some (record {
      subject = bytes "cluster/nodes";
      topic = bytes "cluster/nodes";
      ts = pos 12;
      payload = bytes "[]";
    })
unfolding consume_cluster_info cluster_envelope cluster_subject stamp publish new_hub lookup insert
    bytes_beq
latest_nodes = refl

consume_cluster_info-latest_example :
    lookup
      (cluster_subject (bytes "nodes"))
      (consume_cluster_info not_empty reads (new_hub 1)).state
    ≡ relayed
        (cluster_subject (bytes "nodes"))
        (last_message not_empty (bytes "nodes") reads)
        (lookup (cluster_subject (bytes "nodes")) (new_hub 1).state)
consume_cluster_info-latest_example =
    consume_cluster_info-latest not_empty (bytes "nodes") reads (new_hub 1)
      (λ p. omega (arith, ap (head_or 0) p)) (λ p. omega (arith, ap (head_or 0) p))

abbrev visits : List (Read Moment)
visits =
    message (record { key = bytes "/hw"; value = bytes "{}"; time = pos 5 }) at_noon
    ∷ failed true
    ∷ []

consume_visit_counts-latest_example :
    lookup (visit_subject (bytes "/hw")) (consume_visit_counts not_empty visits (new_hub 1)).state
    ≡ relayed
        (visit_subject (bytes "/hw"))
        (last_message not_empty (bytes "/hw") visits)
        (lookup (visit_subject (bytes "/hw")) (new_hub 1).state)
consume_visit_counts-latest_example =
    consume_visit_counts-latest not_empty (bytes "hw") visits (new_hub 1) (omega arith) (refl, tt)

visit_subject-shared_example : (visit_subject (bytes "/hw") ≡ visit_subject (bytes "hw")) ↔ (
    (bytes "/hw" ≡ bytes "hw")
    ⊎ (IsSlashed (bytes "/hw") (bytes "hw") ⊎ IsSlashed (bytes "hw") (bytes "/hw")))
visit_subject-shared_example = visit_subject-shared (bytes "/hw") (bytes "hw")

-- The two URLs that visitcounter counts apart are one subject for the browsers.
shared : visit_subject (bytes "/hw") ≡ visit_subject (bytes "hw")
unfolding visit_subject trim_slash
shared = refl
