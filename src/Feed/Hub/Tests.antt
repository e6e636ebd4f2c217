-- ===== src/Feed/Hub/Tests.antt =====
-- A hub with room for two clients, as in TestHubConnectionCap.
use pok.Feed.Hub.Steps.{
  registers, unregisters, Reach, here, next, act, act-total, Reach-bounds, register-after_leave,
  Reach-IsValid,
}
use pok.Feed.Hub.Valid.{IsValid, new_hub-IsValid}
use pok.Feed.Hub.{Hub, new_hub, admit, register, unregister}
use pok.Feed.Client.{Envelope}
use pok.Prelude.Bytes.{bytes}
use pok.Prelude.Int.{pos}
use pok.Prelude.Lists.{All, contains, length}
use pok.Prelude.Maps.{IsRange}
use pok.Prelude.Tests.{nat_key}
use pok.Prelude.{arith, ◌≤◌, ◌≡◌, ◌↔◌, refl, true, none, some, [], ◌∷◌}

abbrev one : Hub
one = admit (new_hub 2)

abbrev two : Hub
two = admit one

one-Reach : Reach (new_hub 2) one
unfolding act register new_hub
one-Reach = next registers here tt refl

two-Reach : Reach (new_hub 2) two
unfolding act register admit new_hub
two-Reach = next registers one-Reach tt refl

-- A third client is refused.
third_refused : (register two).0 ≡ none
unfolding register admit new_hub
third_refused = refl

abbrev sample : Envelope
sample = record {
  subject = bytes "visit/x";
  topic = bytes "visit/x";
  ts = pos 1;
  payload = bytes "{}";
}

both : IsRange (λ p. contains p two.clients) (1 ∷ 0 ∷ [])
unfolding admit new_hub contains
both = record { once = (refl, (refl, tt)); all = λ p. ground arith }

Reach-bounds_example :
    (length two.clients ≤ 2)
    × (two.sessions ≡ length two.clients)
    × All (λ c. length (two.heap c).order ≤ length two.state) two.clients
Reach-bounds_example = Reach-bounds 2 two two-Reach

act-total_example : (h' : Hub) × (act (unregisters 0) two ≡ some h')
act-total_example = act-total 2 two (unregisters 0) two-Reach has_zero
  where
    has_zero : contains 0 two.clients ≡ true
    has_zero = unfold admit new_hub contains in refl

two-IsValid : IsValid two
two-IsValid = Reach-IsValid (new_hub-IsValid 2) two-Reach

two-contains : contains 0 two.clients ≡ true
unfolding admit new_hub contains
two-contains = refl

register-after_leave_example :
    (((register two).0 ≡ none) ↔ (length two.clients ≡ two.max_clients))
    × (h' : Hub) × (unregister 0 two ≡ some h')
    × ((register h').0 ≡ some two.next)
register-after_leave_example = register-after_leave two 0 two-IsValid two-contains
