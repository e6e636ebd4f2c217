-- ===== src/Visits/Ends.antt =====
-- When the replay ends, told by the messages that visitcounter reads alone.
use pok.Kafka.{Read, failed, message}
use pok.Prelude.Bytes.{Bytes, bytes_key}
use pok.Prelude.Int.{is_nonpos}
use pok.Prelude.Lists.{length, contains}
use pok.Prelude.Maps.{has}
use pok.Prelude.Tests.{ltb, leb, if◌then◌else◌}
use pok.Prelude.{◌≡◌, Bool, true, false, ◌&&◌, ◌||◌, not, List, [], ◌∷◌, ◌++◌}
use pok.Visits.{Moment, Counter, url_of}

-- The URLs that take a slot are kept in the order of their first visits: at most 512, each of 1 to
-- 256 bytes.
abbrev pub takes : Bytes → List Bytes → Bool
takes u slots =
    leb 1 (length u) && leb (length u) 256 && (contains u slots || ltb (length slots) 512)

abbrev pub taken : Bytes → List Bytes → List Bytes
taken u slots = if takes u slots && not (contains u slots) then slots ++ u ∷ [] else slots

module _ (url_field : Bytes → Bytes) where
  -- Some message that has or gets a slot is read with no lag left after it.
  abbrev pub ends : List (Read Moment) → List Bytes → Bool
  ends [] slots = false
  ends (failed true ∷ reads) slots = false
  ends (failed false ∷ reads) slots = ends reads slots
  ends (message m at ∷ reads) slots =
      let u = url_of url_field m in
      let later = ends reads (taken u slots) in (takes u slots && is_nonpos at.lag) || later

  -- The slots are the URLs counted.
  record HasSlots (slots : List Bytes) (s : Counter) : Type 0 where
    sized : length s.counts ≡ length slots
    same : (u : Bytes) → has u s.counts ≡ contains u slots
