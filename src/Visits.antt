-- ===== src/Visits.antt =====
-- The visit counter: `main` of apps/visitcounter/main.go from its counters on, and `publishVisit` of
-- apps/helloworld/main.go, which feeds it. A run is the list of what the reads of url-visits return;
-- beside a message stand the clock, the reader's lag after it, and the order in which `range` visits
-- the touched URLs if the replay ends there. `url_field` is the "url" that `json.Unmarshal` finds in
-- a value, "" where it finds none. A write that fails is only logged, so it changes nothing here.
pub mod Counts
pub mod Shown
pub mod Replay
pub mod Ends
pub mod Bounds
pub mod Chain
mod Tests
use pok.Kafka.{Message, Read, failed, message}
use pok.Prelude.Bytes.{Bytes, bytes_key}
use pok.Prelude.Int.{ℤ, pos, is_nonpos}
use pok.Prelude.Lists.{length, contains}
use pok.Prelude.Maps.{Map, has, index, insert}
use pok.Prelude.Tests.{◌==◌, ltb, leb, if◌then◌else◌}
use pok.Prelude.{
  ℕ, ◌+◌, ◌%◌, ◌^◌, ◌≡◌, Bool, true, false, ◌&&◌, ◌||◌, not, Option, none, some, List, [], ◌∷◌,
  ◌++◌, map,
}

abbrev pub max_visit_urls : ℕ
max_visit_urls = 512

abbrev pub max_visit_url_len : ℕ
max_visit_url_len = 256

abbrev pub max_visit_path_len : ℕ
max_visit_path_len = 256

-- helloworld's publishVisit: a path that is too long is served and not counted.
unfoldable pub publish_visit : (Bytes → Bytes) → Bytes → ℤ → Option Message
publish_visit event path now =
    if ltb max_visit_path_len (length path)
    then none
    else some (record { key = path; value = event path; time = now })

-- An int64 is its bit pattern: counts[url]++ wraps.
unfoldable pub increment : ℕ → ℕ
increment n = (n + 1) % 2 ^ 64

pub record Counter : Type 0 where
  pub counts : Map Bytes ℕ
  pub last : Map Bytes ℤ
  pub replaying : Bool
  -- the keys of a map used as a set
  pub dirty : List Bytes

abbrev pub new_counter : Counter
new_counter = record { counts = []; last = []; replaying = true; dirty = [] }

pub record Moment : Type 0 where
  pub now : ℤ
  pub lag : ℤ
  pub order : List Bytes

-- The message {count, last} that `publish` writes under the URL.
pub record Count : Type 0 where
  pub url : Bytes
  pub count : ℕ
  pub last : ℤ

unfoldable pub publish : Counter → Bytes → Count
publish s url = record { url = url; count = index 0 url s.counts; last = index (pos 0) url s.last }

unfoldable pub is_url : Bytes → Bool
is_url url = not (url == [] || ltb max_visit_url_len (length url))

-- A new URL is counted only while there is room.
unfoldable pub has_room : Bytes → Counter → Bool
has_room url s = not (not (has url s.counts) && leb max_visit_urls (length s.counts))

unfoldable pub add_dirty : Bytes → List Bytes → List Bytes
add_dirty url dirty = if contains url dirty then dirty else dirty ++ url ∷ []

-- The time of the message, or the clock where the broker gave none.
unfoldable pub stamp : Message → Moment → ℤ
stamp m at = if is_nonpos m.time then at.now else m.time

-- counts[url]++ and last[url] = ts
unfoldable pub count_visit : Bytes → ℤ → Counter → Counter
unfolding increment
count_visit url ts s = record s {
  counts = insert url (increment (index 0 url s.counts)) s.counts;
  last = insert url ts s.last;
}

-- While the reader lags the replay is silent; when it has caught up every touched URL is published.
unfoldable pub caught_up : Moment → Counter → Counter × List Count
caught_up at s =
    if is_nonpos at.lag
    then (record s { replaying = false; dirty = [] }, map (publish s) at.order)
    else (s, [])

unfoldable pub announce : Bytes → Moment → Counter → Counter × List Count
unfolding caught_up add_dirty
announce url at s =
    if s.replaying
    then caught_up at (record s { dirty = add_dirty url s.dirty })
    else (s, publish s url ∷ [])

module _ (url_field : Bytes → Bytes) where
  unfoldable pub url_of : Message → Bytes
  url_of m = if m.key == [] then url_field m.value else m.key

  unfoldable pub is_counted : Message → Counter → Bool
  unfolding url_of
  is_counted m s = is_url (url_of m) && has_room (url_of m) s

  -- One round of the loop, with the messages that it publishes.
  unfoldable pub step : Message → Moment → Counter → Counter × List Count
  unfolding is_counted stamp
  step m at s =
      if is_counted m s
      then announce (url_of m) at (count_visit (url_of m) (stamp m at) s)
      else (s, [])

  -- The loop, with all that it publishes. It ends when a read fails after the context is done.
  unfoldable pub run : List (Read Moment) → Counter → Counter × List Count
  run [] s = (s, [])
  run (failed true ∷ reads) s = (s, [])
  run (failed false ∷ reads) s = run reads s
  run (message m at ∷ reads) s =
      let (s', out) = step m at s in let (s'', more) = run reads s' in (s'', out ++ more)
