-- ===== src/Visits/Tests.antt =====
-- Three URLs, a replay of four messages and a visit after it.
use pok.Kafka.{Read, failed, message}
use pok.Prelude.Bytes.{Bytes, bytes, bytes_beq, bytes_key}
use pok.Prelude.Int.{pos}
use pok.Prelude.Lists.{All, contains, length}
use pok.Prelude.Maps.{keys, has, index, insert, lookup}
use pok.Prelude.Tests.{if◌then◌else◌}
use pok.Prelude.{ℕ, ◌≤◌, ◌≡◌, ◌⊎◌, ◌%◌, ◌^◌, refl, true, false, none, some, List, [], ◌∷◌, arith}
use pok.Visits.Bounds.{IsBounded, run-bounds, run-IsBounded, new_counter-IsBounded}
use pok.Visits.Counts.{visits, run-counts}
use pok.Visits.Ends.{ends}
use pok.Visits.Replay.{AllRanged, run-published}
use pok.Visits.Shown.{last_count}
use pok.Visits.{
  Moment, Counter, publish, is_url, has_room, count_visit, announce, url_of, step, run, new_counter,
}

-- Stands for the url field of a JSON value.
abbrev no_field : Bytes → Bytes
no_field b = []

abbrev visit : Bytes → ℕ → ℕ → List Bytes → Read Moment
visit url time lag order =
    message (record { key = url; value = []; time = pos time })
      (record { now = pos 100; lag = pos lag; order = order })

abbrev reads : List (Read Moment)
reads =
    visit (bytes "/a") 1 3 []
    ∷ visit (bytes "/b") 2 2 []
    ∷ failed false
    ∷ visit (bytes "/a") 3 0 (bytes "/b" ∷ bytes "/a" ∷ [])
    ∷ visit (bytes "/b") 4 0 []
    ∷ visit [] 5 0 []
    ∷ []

published :
    (run no_field reads new_counter).1
    ≡ record { url = bytes "/b"; count = 1; last = pos 2 }
      ∷ record { url = bytes "/a"; count = 2; last = pos 3 }
      ∷ record { url = bytes "/b"; count = 2; last = pos 4 }
      ∷ []
unfolding run step announce count_visit publish is_url has_room has index insert contains bytes_beq
published = refl

swapped : (a b u : Bytes) → contains u (b ∷ a ∷ []) ≡ contains u (a ∷ b ∷ [])
unfolding contains
swapped a b u = ground arith

reads-AllRanged : AllRanged no_field reads new_counter
unfolding step announce count_visit is_url has_room has index insert contains bytes_beq url_of
reads-AllRanged = (
  (λ _ h. cc),
  (
    (λ _ h. cc),
    (
      (λ _ _. record { once = (refl, (refl, tt)); all = λ u. swapped (bytes "/a") (bytes "/b") u }),
      ((λ h. cc), ((λ h. cc), tt)),
    ),
  ),
)

run-bounds_example :
    let s = (run no_field reads new_counter).0 in
    (length s.counts ≤ 512)
    × All (λ u. (1 ≤ length u) × (length u ≤ 256)) (keys s.counts)
    × ((u : Bytes) → has u s.last ≡ has u s.counts)
run-bounds_example = run-bounds no_field reads

run-counts_example :
    let s = (run no_field reads new_counter).0 in
    (lookup (bytes "/a") s.counts ≡ some (visits no_field (bytes "/a") reads % 2 ^ 64))
    ⊎ ((lookup (bytes "/a") s.counts ≡ none)
        × ((visits no_field (bytes "/a") reads ≡ 0)
            ⊎ ((length s.counts ≡ 512) ⊎ (is_url (bytes "/a") ≡ false))))
run-counts_example = run-counts no_field reads (bytes "/a")

run-published_example :
    let (s, out) = run no_field reads new_counter in
    last_count (bytes "/a") out ≡ (
      if s.replaying
      then none
      else if has (bytes "/a") s.counts
      then some (publish s (bytes "/a"))
      else none)
run-published_example = run-published no_field reads (bytes "/a") reads-AllRanged

-- One visit of /a is replayed, and then a message without a URL ends the log.
abbrev stalled : Counter
stalled = record {
  counts = (bytes "/a", 1) ∷ [];
  last = (bytes "/a", pos 1) ∷ [];
  replaying = true;
  dirty = bytes "/a" ∷ [];
}

after_one_visit : (run no_field (visit (bytes "/a") 1 1 [] ∷ []) new_counter).0 ≡ stalled
unfolding run step announce count_visit is_url has_room has index insert contains bytes_beq
after_one_visit = refl

-- The last message of the replay is no URL, so the replay goes on, and "/a" is not published.
abbrev stalling : List (Read Moment)
stalling = visit (bytes "/a") 1 1 [] ∷ visit [] 2 0 [] ∷ []

stalling_goes_on : ends no_field stalling [] ≡ false
unfolding contains bytes_beq url_of
stalling_goes_on = refl

reads_end : ends no_field reads [] ≡ true
unfolding contains bytes_beq url_of
reads_end = refl

stalled-IsBounded : IsBounded stalled
stalled-IsBounded =
    rw after_one_visit at
      (run-IsBounded no_field (visit (bytes "/a") 1 1 [] ∷ []) new_counter new_counter-IsBounded)

stalled-has : has (bytes "/a") stalled.counts ≡ true
unfolding has bytes_beq
stalled-has = refl
