-- ===== src/Pipeline/Tests.antt =====
-- Three requests for one page and two that are not counted: two are replayed, and of the two counts
-- written one is compacted. Two polls of the namespaces, of which wsfeed reads the second.
use pok.Cluster.Poll.Aspects
use pok.Cluster.Poll.Calls.{Api, Report, call, of_names}
use pok.Cluster.Poll.Rounds.{last_report}
use pok.Cluster.Poll.{Round, poll_all}
use pok.Cluster.Samples.{libraries, api_of}
use pok.Cluster.Sorting.{sort, sort_strings}
use pok.Cluster.Workloads
use pok.Cluster.Workloads.{aspect_namespaces}
use pok.Feed.Consume
use pok.Feed.Client.Coalesce.{last_update}
use pok.Feed.Consume.Moves.{RangesOver}
use pok.Feed.Hub
use pok.Feed.Session.Progress.{serve_all}
use pok.Feed.Session.Seeded.{arrive}
use pok.Feed.Session.{live, World, open_session}
use pok.Pipeline.Browser.{arrive-shown, arrive-polled}
use pok.Feed.Consume.{
  relay, cluster_envelope, visit_envelope, trim_slash, visit_subject, cluster_subject,
  consume_visit_counts, consume_cluster_info,
}
use pok.Feed.Hub.{new_hub}
use pok.Kafka.{Read, failed, message}
use pok.Pipeline.Logged.{requests}
use pok.Pipeline.Relayed.{IsHeld}
use pok.Pipeline.Edge.{greeted, is_page}
use pok.Pipeline.Shown.{IsShownAs}
use pok.Kafka.Topics.{topic_message, last_keyed, ended, retried, delivered, compacted}
use pok.Pipeline.{Visit, logged}
use pok.Prelude.Bytes.{Bytes, bytes, bytes_beq, bytes_key}
use pok.Prelude.Int.{pos}
use pok.Prelude.Lists.{contains, length, head_or}
use pok.Prelude.Maps.{IsRange, has, index, insert}
use pok.Prelude.Tests.{nat_beq, if◌then◌else◌}
use pok.Prelude.{ℕ, ◌≡◌, refl, Bool, true, false, some, List, [], ◌∷◌, arith}
use pok.Cluster.Versions.{has_prefix}
use pok.Web.Clean.{ends_in_slash}
use pok.Web.Edge.{routes, app_routes}
use pok.Web.Mux.{fits, serve}
use pok.Visits.Replay.{AllRanged}
use pok.Visits.{
  Count, publish, publish_visit, is_url, has_room, count_visit, announce, url_of, step, run,
  new_counter,
}

-- Stand for json.Valid, json.Marshal, and the url field of a JSON value.
abbrev is_object : Bytes → Bool
is_object b = nat_beq (head_or 0 b) b'{'

abbrev object : Count → Bytes
object c = b'{' ∷ c.url

abbrev event : Bytes → Bytes
event path = path

abbrev no_field : Bytes → Bytes
no_field b = []

abbrev page : Bytes
page = bytes "/hw/a"

abbrev visit : Bytes → ℕ → ℕ → Visit
visit path served lag = record {
  path = path;
  served = pos served;
  read_at = record { now = pos 100; lag = pos lag; order = page ∷ [] };
}

abbrev asked : List Visit
asked =
    visit page 1 1
    ∷ visit (bytes "/static/a.js") 1 0
    ∷ visit page 2 0
    ∷ visit (bytes "/hw//a") 3 0
    ∷ visit page 3 0
    ∷ []

abbrev count_at : ℕ → ℕ → Count
count_at n last = record { url = page; count = n; last = pos last }

only_pages : greeted asked ≡ visit page 1 1 ∷ visit page 2 0 ∷ visit page 3 0 ∷ []
unfolding greeted serve routes app_routes fits has_prefix ends_in_slash bytes_beq
only_pages = refl

asked-AllRanged : AllRanged no_field (logged event (greeted asked)) new_counter
unfolding greeted serve routes app_routes fits has_prefix ends_in_slash logged publish_visit step
    announce count_visit is_url has_room has index insert contains bytes_beq url_of
asked-AllRanged =
    ((λ _ h. cc), ((λ _ _. record { once = (refl, tt); all = λ u. refl }), ((λ h. cc), tt)))

abbrev counts_read : List (Read Consume.Moment)
counts_read =
    failed false
    ∷ message (topic_message (λ (c : Count). c.url) object (count_at 3 3) (pos 4))
        (record { now = pos 5; order = [] })
    ∷ []

counts-RangesOver : RangesOver [] counts_read
unfolding contains
counts-RangesOver = (record { once = tt; all = λ p. refl }, tt)

one_subject :
    IsRange
      (λ (k : Bytes). has k (consume_visit_counts is_object counts_read (new_hub 8)).state)
      (visit_subject page ∷ [])
unfolding consume_visit_counts relay visit_envelope visit_subject trim_slash new_hub Hub.publish has
    insert contains bytes_beq topic_message
one_subject = record { once = (refl, tt); all = λ k. refl }

arrive-shown_example :
    let h = consume_visit_counts is_object counts_read (new_hub 8) in
    (w v : World) × (open_session h ≡ some w)
    × (serve_all is_object (arrive is_object (visit_subject page ∷ []) h) w ≡ some v)
    × (v.phase ≡ live)
    × IsShownAs object page
        (if is_page page then requests page asked else 0)
        (length (run no_field (logged event (greeted asked)) new_counter).0.counts)
        (last_update (visit_subject page) v.received)
unfolding greeted serve routes app_routes fits has_prefix ends_in_slash logged publish_visit run
    step announce count_visit publish is_url has_room has index insert contains bytes_beq last_keyed
arrive-shown_example =
    arrive-shown is_object object (λ c. refl) event no_field asked asked-AllRanged refl
      (bytes "hw/a") counts_read 7 (visit_subject page ∷ []) (omega arith)
      (compacted (count_at 2 2) (count_at 3 3) refl
        (retried (delivered (count_at 3 3) (pos 4) (record { now = pos 5; order = [] }) ended)))
      counts-RangesOver one_subject

abbrev rounds : List (Round (Api libraries))
rounds =
    record { now = pos 1; choice = 2; answers = api_of []; accepted = true }
    ∷ record { now = pos 2; choice = 2; answers = api_of (bytes "a" ∷ []); accepted = true }
    ∷ []

abbrev json : Workloads.Message (Report libraries) → Bytes
json m = b'{' ∷ m.aspect

abbrev names_message : List Bytes → Workloads.Message (Report libraries)
names_message names = record {
  aspect = bytes "namespaces";
  value = of_names (record { count = length names; names = names });
}

abbrev reports_read : List (Read Consume.Moment)
reports_read =
    message
      (topic_message (λ (m : Workloads.Message (Report libraries)). m.aspect) json
        (names_message (bytes "a" ∷ [])) (pos 3))
      (record { now = pos 5; order = [] })
    ∷ []

reports-RangesOver : RangesOver [] reports_read
unfolding contains
reports-RangesOver = (record { once = tt; all = λ p. refl }, tt)

one_aspect :
    IsRange
      (λ (k : Bytes). has k (consume_cluster_info is_object reports_read (new_hub 8)).state)
      (cluster_subject (bytes "namespaces") ∷ [])
unfolding consume_cluster_info relay cluster_envelope cluster_subject new_hub Hub.publish has insert
    contains bytes_beq topic_message
one_aspect = record { once = (refl, tt); all = λ k. refl }

arrive-polled_example :
    let h = consume_cluster_info is_object reports_read (new_hub 8) in
    (w v : World) × (open_session h ≡ some w)
    × (serve_all is_object (arrive is_object (cluster_subject (bytes "namespaces") ∷ []) h) w
        ≡ some v)
    × (v.phase ≡ live)
    × IsHeld
        (λ (m : Workloads.Message (Report libraries)). m.aspect)
        json
        (last_report (call libraries) Aspects.namespaces rounds)
        (last_update (cluster_subject (bytes "namespaces")) v.received)
unfolding poll_all call aspect_namespaces sort_strings sort last_keyed bytes_beq
arrive-polled_example =
    arrive-polled libraries is_object json (λ m. refl) rounds (pos 0) reports_read 7
      (cluster_subject (bytes "namespaces") ∷ []) Aspects.namespaces
      (compacted (names_message []) (names_message (bytes "a" ∷ [])) refl (
        delivered (names_message (bytes "a" ∷ [])) (pos 3) (record { now = pos 5; order = [] })
          ended))
      reports-RangesOver one_aspect
