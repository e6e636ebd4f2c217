-- ===== src/Feed/Session/Delivery.antt =====
-- No update is lost between the hub and a browser: what the browser was sent, what the session
-- still holds and what waits in its queue add up to the hub's state in every reachable world.
use mathlib.Core.Option.{some-injective}
use mathlib.Core.Path.{subst}
use pok.Feed.Client.Coalesce.{last_update}
use pok.Feed.Client.{new_client}
use pok.Feed.Hub.Steps
use pok.Feed.Hub.Steps.{
  Action, publishes, registers, unregisters, receives, takes, act, update, IsAllowed, act-IsValid,
  receives-IsValid, takes-IsValid,
}
use pok.Feed.Hub.Valid.{IsValid, new_hub-IsValid, admit-IsValid}
use pok.Feed.Hub.{Hub, new_hub, admit, register}
use pok.Feed.Session.{accepting, live, World, open_session, Reach}
use pok.Prelude.Bytes.{Bytes, bytes_key}
use pok.Prelude.Lists.{length, contains, contains-snoc}
use pok.Prelude.Maps.{lookup, has, lookup_missing}
use pok.Prelude.Tests.{eq_refl, Bool-cases, leb, if◌then◌else◌, nat_key}
use pok.Prelude.{ℕ, ◌<◌, ◌≡◌, refl, sym, ◌∙◌, inl, inr, Bool, true, false, none, some, [], arith}
use pok.Feed.Session.Synced.{IsNotified, IsLinked, IsSynced}
use pok.Feed.Session.Moves.{Reach-IsSynced}

admit-IsNotified : (h : Hub) → IsNotified h.next (admit h)
unfolding admit new_client has
admit-IsNotified h = record { at = λ k. rw (eq_refl h.next) (λ m. cc) }

admit-contains : (h : Hub) → contains h.next (admit h).clients ≡ true
unfolding admit
admit-contains h = ground (arith, contains-snoc h.next h.next h.clients, eq_refl h.next)

unfoldable pub opened : Hub → World
opened h = record {
  hub = admit h;
  client = h.next;
  phase = accepting;
  received = [];
  messages_sent = 0;
}

opened-IsSynced :
    (h : Hub) → IsValid h → length h.clients < h.max_clients → IsSynced accepting (opened h)
unfolding opened
opened-IsSynced h v room = record {
  hub_valid = admit-IsValid h v room;
  counted = refl;
  member = admit-contains h;
  linked = (refl, admit-IsNotified h);
}

pub open_session_lem :
    (h : Hub)
    → open_session h ≡ (if leb h.max_clients (length h.clients) then none else some (opened h))
unfolding open_session register opened
open_session_lem h = ground arith

pub open_session-IsSynced :
    (h : Hub) (w : World) → IsValid h → open_session h ≡ some w → IsSynced w.phase w
open_session-IsSynced h w v q = elim (Bool-cases (leb h.max_clients (length h.clients))) [
  | inl full ↦ ground (arith, open_session_lem h)
  | inr room ↦
      subst (λ u. IsSynced u.phase u)
        (some-injective (opened h) w (sym (rw room at (open_session_lem h)) ∙ q))
        (unfold opened in opened-IsSynced h v (ground arith))
]

idle_view :
    (k : Bytes) (w : World)
    → IsLinked live w
    → (w.hub.heap w.client).notify ≡ false
    → last_update k w.received ≡ lookup k w.hub.state
idle_view k w (s, n) idle =
    ground (arith, s.at k, n.at k, lookup_missing k (w.hub.heap w.client).pending)

-- A session opened on a hub that any history led to, interleaved with any steps of the other
-- goroutines and with any outcomes of its own writes: whenever it waits in the select with no token,
-- the last envelope that the browser was sent for each subject is the hub's, a subject that the hub
-- does not know was never sent, and the counter counts the envelopes sent.
pub delivery :
    (valid : Bytes → Bool) (n : ℕ) (h : Hub) (w₀ w : World)
    → Steps.Reach (new_hub n) h
    → open_session h ≡ some w₀
    → Reach valid w₀ w
    → w.phase ≡ live
    → (w.hub.heap w.client).notify ≡ false
    → ((k : Bytes) → last_update k w.received ≡ lookup k w.hub.state)
      × (w.messages_sent ≡ length w.received)
delivery valid n h w₀ w r q run waits idle =
    let v = Steps.Reach-IsValid (new_hub-IsValid n) r in
    let s = Reach-IsSynced valid (open_session-IsSynced h w₀ v q) run in
    (λ k. idle_view k w (rw waits at s.linked) idle, s.counted)
