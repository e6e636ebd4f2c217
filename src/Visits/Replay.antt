-- ===== src/Visits/Replay.antt =====
-- What is published in a whole run: nothing during the replay, and then always the counters.
use mathlib.Core.List.{append-nil, append_assoc}
use pok.Kafka.{Read, failed, message}
use pok.Prelude.Bytes.{Bytes, bytes_key}
use pok.Prelude.Lists.{contains}
use pok.Prelude.Maps.{has}
use pok.Prelude.Tests.{Bool-cases, if◌then◌else◌}
use pok.Prelude.{◌≡◌, refl, ap, inl, inr, true, false, none, some, List, [], ◌∷◌, ◌++◌}
use pok.Visits.Shown.{last_count, IsShown, IsRanged, step-IsShown}
use pok.Visits.{Moment, Counter, Count, publish, url_of, step, run, new_counter}

module _ (url_field : Bytes → Bytes) where
  -- `range` visits the touched URLs in some order that the language allows.
  abbrev pub AllRanged : List (Read Moment) → Counter → Type 0
  AllRanged [] s = Unit
  AllRanged (failed true ∷ reads) s = Unit
  AllRanged (failed false ∷ reads) s = AllRanged reads s
  AllRanged (message m at ∷ reads) s =
      IsRanged (url_of url_field m) at s × AllRanged reads (step url_field m at s).0

  run-IsShown :
      (reads : List (Read Moment)) (out : List Count) (s : Counter)
      → AllRanged reads s
      → IsShown out s
      → IsShown (out ++ (run url_field reads s).1) (run url_field reads s).0
  unfolding run
  run-IsShown [] out s r sh = rw (append-nil out) sh
  run-IsShown (failed true ∷ reads) out s r sh = rw (append-nil out) sh
  run-IsShown (failed false ∷ reads) out s r sh = run-IsShown reads out s r sh
  run-IsShown (message m at ∷ reads) out s r sh =
      rw
        (← append_assoc out (step url_field m at s).1
          (run url_field reads (step url_field m at s).0).1)
        (run-IsShown reads (out ++ (step url_field m at s).1) (step url_field m at s).0 r.1
          (step-IsShown url_field m at s out sh r.0))

  new_counter-IsShown : IsShown [] new_counter
  unfolding contains has
  new_counter-IsShown = record { silent = λ h. refl; touched = λ h u. refl; shown = λ h. cc }

  -- In a run from the start no URL was published while the replay lasts. Once it is over, the last
  -- count published for each URL is the one in the counters, with its last time, and for a URL that
  -- is not tracked none was published.
  pub run-published :
      (reads : List (Read Moment)) (u : Bytes)
      → AllRanged reads new_counter
      → let (s, out) = run url_field reads new_counter in
        last_count u out
        ≡ (if s.replaying then none else if has u s.counts then some (publish s u) else none)
  unfolding last_count
  run-published reads u r =
      let s = (run url_field reads new_counter).0 in
      let sh = run-IsShown reads [] new_counter r new_counter-IsShown in
      elim (Bool-cases s.replaying) [
        | inl h ↦ rw h (ap (last_count u) (sh.silent h))
        | inr h ↦ rw h (sh.shown h u)
      ]
