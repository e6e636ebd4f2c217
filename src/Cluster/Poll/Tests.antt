-- ===== src/Cluster/Poll/Tests.antt =====
-- Five rounds: two of the namespaces, one that the broker refuses, and two of other aspects.
use pok.Cluster.Poll.Aspects
use pok.Cluster.Poll.Calls.{Api, Report, call, of_names}
use pok.Cluster.Poll.Rounds.{last_report}
use pok.Cluster.Poll.{Round, Poller, poll_all, is_ticking}
use pok.Cluster.Samples.{libraries, api_of}
use pok.Cluster.Sorting.{sort, sort_strings}
use pok.Cluster.Workloads.{aspect_namespaces}
use pok.Prelude.Bytes.{Bytes, bytes, bytes_beq}
use pok.Prelude.Int.{pos, ◌-ℤ◌}
use pok.Prelude.{ℕ, ◌≡◌, refl, Bool, true, false, some, List, [], ◌∷◌}

abbrev round : ℕ → ℕ → List Bytes → Bool → Round (Api libraries)
round now choice names accepted = record {
  now = pos now;
  choice = choice;
  answers = api_of names;
  accepted = accepted;
}

abbrev rounds : List (Round (Api libraries))
rounds =
    round 10 2 (bytes "b" ∷ bytes "a" ∷ []) true
    ∷ round 11 2 (bytes "c" ∷ []) true
    ∷ round 12 2 [] false
    ∷ round 13 0 [] true
    ∷ round 14 1 [] true
    ∷ []

abbrev started : Poller (Report libraries)
started = record { last_tick = pos 9; written = [] }

last_namespaces :
    last_report (call libraries) Aspects.namespaces rounds
    ≡ some (record {
      aspect = bytes "namespaces";
      value = of_names (record { count = 1; names = bytes "c" ∷ [] });
    })
unfolding last_report call aspect_namespaces bytes_beq sort_strings sort
last_namespaces = refl

in_time : is_ticking (pos 44) (poll_all (call libraries) rounds started).last_tick ≡ true
unfolding is_ticking poll_all ◌-ℤ◌
in_time = refl

late : is_ticking (pos 45) (poll_all (call libraries) rounds started).last_tick ≡ false
unfolding is_ticking poll_all ◌-ℤ◌
late = refl
