-- ===== src/Pipeline/Browser.antt =====
-- What a browser that opens the live page after some requests is sent about them.
use pok.Cluster.Poll.Aspects.{Aspect}
use pok.Cluster.Poll.Calls.{Libraries, Api, Report, call}
use pok.Cluster.Poll.Keys.{key_of}
use pok.Cluster.Poll.Rounds.{last_report}
use pok.Cluster.Poll.{Round, poll_all}
use pok.Cluster.Workloads
use pok.Pipeline.Polled.{polled-shown}
use pok.Pipeline.Relayed.{IsHeld}
use pok.Prelude.Int.{ℤ}
use pok.Feed.Client.Coalesce.{last_update}
use pok.Feed.Consume
use pok.Feed.Consume.Moves.{RangesOver, consume_visit_counts-IsFed, consume_cluster_info-IsFed}
use pok.Feed.Consume.{visit_subject, cluster_subject, consume_visit_counts, consume_cluster_info}
use pok.Feed.Hub.{new_hub}
use pok.Feed.Session.Progress.{serve_all}
use pok.Feed.Session.Seeded.{arrive, arrive-seeded}
use pok.Feed.Session.{live, World, open_session}
use pok.Kafka.Topics.{Delivers}
use pok.Kafka.{Read}
use pok.Pipeline.Edge.{greeted, is_page, edge-shown}
use pok.Pipeline.Logged.{requests}
use pok.Pipeline.Shown.{IsShownAs}
use pok.Pipeline.{Visit, logged}
use pok.Prelude.Bytes.{Bytes, bytes_key}
use pok.Prelude.Lists.{length}
use pok.Prelude.Maps.{has, IsRange}
use pok.Prelude.Tests.{if◌then◌else◌}
use pok.Prelude.{ℕ, suc, ◌<◌, ◌≡◌, Bool, true, false, some, List, [], ◌∷◌}
use pok.Visits.Replay.{AllRanged}
use pok.Visits.{Count, run, new_counter}

module _ (valid : Bytes → Bool) (encode : Count → Bytes)
    (encodes : (c : Count) → valid (encode c) ≡ true) (event url_field : Bytes → Bytes)
    (asked : List Visit) (ranged : AllRanged url_field (logged event (greeted asked)) new_counter)
    (replayed : (run url_field (logged event (greeted asked)) new_counter).0.replaying
      ≡ false) where
  -- Let browsers ask edge for any paths, let visitcounter read the events of all that helloworld
  -- answers until its replay is over, and let wsfeed, with room for a session and from an empty hub
  -- on, read what a compacted topic delivers of the counts written, as JSON. A browser that then
  -- opens a session over a working connection is admitted, and when its session has come to the
  -- select, with nothing else happening, what it was last sent under the subject of a path of at most
  -- 256 bytes that begins with a slash is the number of the requests for it that count, modulo 2^64:
  -- all that browsers made if it is a page, that is clean and at or below /hw, and none otherwise. Or
  -- it was sent nothing, and then that number is 0, or visitcounter had given all its 512 slots to
  -- other pages.
  pub arrive-shown :
      (path : Bytes) (reads : List (Read Consume.Moment)) (n : ℕ) (order : List Bytes)
      → length path < 256
      → Delivers
          (λ (c : Count). c.url)
          encode
          (run url_field (logged event (greeted asked)) new_counter).1
          reads
      → RangesOver [] reads
      → IsRange (λ k. has k (consume_visit_counts valid reads (new_hub (suc n))).state) order
      → let h = consume_visit_counts valid reads (new_hub (suc n)) in
        (w v : World) × (open_session h ≡ some w)
        × (serve_all valid (arrive valid order h) w ≡ some v)
        × (v.phase ≡ live)
        × IsShownAs encode
            (b'/' ∷ path)
            (if is_page (b'/' ∷ path) then requests (b'/' ∷ path) asked else 0)
            (length (run url_field (logged event (greeted asked)) new_counter).0.counts)
            (last_update (visit_subject (b'/' ∷ path)) v.received)
  arrive-shown path reads n order short d orders ranges =
      let fed = consume_visit_counts-IsFed valid reads n orders in
      let (w, v, opens, steps, ph, same) =
        arrive-seeded valid (suc n) (consume_visit_counts valid reads (new_hub (suc n))) fed.reached
          fed.json fed.room order ranges in
      (
        w,
        v,
        opens,
        steps,
        ph,
        rw (same (visit_subject (b'/' ∷ path))) (
            edge-shown valid encode encodes event url_field asked ranged replayed path reads (suc n)
              short d),
      )

-- Let clusterinfo poll any number of rounds, and let wsfeed, with room for a session and from an
-- empty hub on, read what a compacted topic delivers of the messages written, as JSON. A browser that
-- then opens a session over a working connection is admitted, and when its session has come to the
-- select, with nothing else happening, what it was last sent under an aspect's subject is what the
-- aspect's function returned in the last round that chose it, had an answer and got the message
-- written; and it was sent nothing under it if there was no such round.
pub arrive-polled :
    (libs : Libraries) (valid : Bytes → Bool) (encode : Workloads.Message (Report libs) → Bytes)
    → ((m : Workloads.Message (Report libs)) → valid (encode m) ≡ true)
    → (rounds : List (Round (Api libs))) (start : ℤ) (reads : List (Read Consume.Moment)) (n : ℕ)
      (order : List Bytes) (a : Aspect)
    → Delivers
        (λ (m : Workloads.Message (Report libs)). m.aspect)
        encode
        (poll_all (call libs) rounds (record { last_tick = start; written = [] })).written
        reads
    → RangesOver [] reads
    → IsRange (λ k. has k (consume_cluster_info valid reads (new_hub (suc n))).state) order
    → let h = consume_cluster_info valid reads (new_hub (suc n)) in
      (w v : World) × (open_session h ≡ some w)
      × (serve_all valid (arrive valid order h) w ≡ some v)
      × (v.phase ≡ live)
      × IsHeld
          (λ (m : Workloads.Message (Report libs)). m.aspect)
          encode
          (last_report (call libs) a rounds)
          (last_update (cluster_subject (key_of a)) v.received)
arrive-polled libs valid encode encodes rounds start reads n order a d orders ranges =
    let fed = consume_cluster_info-IsFed valid reads n orders in
    let (w, v, opens, steps, ph, same) =
      arrive-seeded valid (suc n) (consume_cluster_info valid reads (new_hub (suc n))) fed.reached
        fed.json fed.room order ranges in
    (
      w,
      v,
      opens,
      steps,
      ph,
      rw (same (cluster_subject (key_of a)))
          (polled-shown libs valid encode encodes rounds start reads (suc n) a d),
    )
