-- ===== src/Feed/Session.antt =====
-- One /ws session beside everything else that happens to the hub: `serveWS` and `writeJSON` of
-- apps/wsfeed/main.go. The environment decides what the socket does and when the other goroutines
-- run, so a run is a sequence of events. `valid` is `json.Valid`: `json.Marshal` of an envelope
-- fails exactly when the raw message in it is not JSON. A browser is sent the envelope: that JSON
-- replaces what is no UTF-8 in a subject is left out.
pub mod View
pub mod Synced
pub mod Linked
pub mod Moves
pub mod Delivery
pub mod Json
pub mod Progress
pub mod Ended
pub mod Over
pub mod Seeded
mod Tests
use pok.Feed.Client.{Envelope, Client, take, receive_notify}
use pok.Feed.Hub.Steps.{
  Action, publishes, registers, unregisters, receives, takes, act, update, IsAllowed,
}
use pok.Feed.Hub.{Hub, snapshot, register, unregister}
use pok.Prelude.Bytes.{Bytes, bytes_key}
use pok.Prelude.Maps.{IsRange, has}
use pok.Prelude.Tests.{if◌then◌else◌}
use pok.Prelude.{ℕ, ◌+◌, ◌≡◌, ◌≢◌, Bool, true, false, ◌&&◌, Option, none, some, List, [], ◌∷◌, ◌++◌}

-- Where the session's goroutine stands.
pub data Phase : Type 0 where
  -- in websocket.Accept
  accepting : Phase
  -- before h.snapshot()
  upgraded : Phase
  -- in one of the two loops that write envelopes, with those still to write
  sending : List Envelope → Phase
  -- in the select
  live : Phase
  -- the token is received, and cl.take() not yet called
  woken : Phase
  -- returned, the client unregistered
  gone : Phase

pub record World : Type 0 where
  pub hub : Hub
  pub client : ℕ
  pub phase : Phase
  -- what the browser was sent, oldest first
  pub received : List Envelope
  pub messages_sent : ℕ

-- `none` is the answer 503.
unfoldable pub open_session : Hub → Option World
open_session h =
    let (c, h') = register h in
    elim c [
      | none ↦ none
      | some p ↦
          some
            (record { hub = h'; client = p; phase = accepting; received = []; messages_sent = 0 })
    ]

pub data Event : Type 0 where
  -- websocket.Accept returns, with a connection or with an error
  accepts rejects : Event
  -- the hub's snapshot, in the order that `range` gives
  seeds : List Bytes → Event
  -- one writeJSON, and whether the connection takes it in time
  writes : Bool → Event
  -- the loop over the envelopes ends
  settles : Event
  -- the three cases of the select
  disconnects shuts_down wakes : Event
  -- cl.take()
  collects : Event

-- The deferred unregister. `none` is a panic.
unfoldable pub leave : World → Option World
leave w = elim (unregister w.client w.hub) [
  | none ↦ none
  | some h ↦ some (record w { hub = h; phase = gone })
]

-- The other goroutines publish, register and run other sessions.
abbrev pub IsForeign : ℕ → Action → Type 0
IsForeign p (publishes order e) = Unit
IsForeign p registers = Unit
IsForeign p (unregisters c) = c ≢ p
IsForeign p (receives c) = c ≢ p
IsForeign p (takes c) = c ≢ p

-- A snapshot ranges over the subjects; no other event has a choice that the language restricts.
abbrev pub IsPossible : Event → World → Type 0
IsPossible (seeds order) w = IsRange (λ k. has k w.hub.state) order
IsPossible _ w = Unit

module _ (valid : Bytes → Bool) where
  -- Whether the envelope is sent.
  unfoldable pub write_json : Envelope → Bool → Bool
  write_json e connected = valid e.payload && connected

  -- `none` also where the event cannot happen in this phase.
  unfoldable pub dispatch : Phase → Event → World → Option World
  unfolding write_json
  dispatch accepting accepts w = some (record w { phase = upgraded })
  dispatch accepting rejects w = leave w
  dispatch upgraded (seeds order) w = some (record w { phase = sending (snapshot order w.hub) })
  dispatch (sending (e ∷ es)) (writes connected) w =
      if write_json e connected
      then some (record w {
        phase = sending es;
        received = w.received ++ e ∷ [];
        messages_sent = w.messages_sent + 1;
      })
      else leave w
  dispatch (sending []) settles w = some (record w { phase = live })
  dispatch live disconnects w = leave w
  dispatch live shuts_down w = leave w
  dispatch live wakes w =
      if (w.hub.heap w.client).notify
      then some (record w { hub = update w.client receive_notify w.hub; phase = woken })
      else none
  dispatch woken collects w = some (record w {
    hub = update w.client (λ q. (take q).1) w.hub;
    phase = sending (take (w.hub.heap w.client)).0;
  })
  dispatch _ _ w = none

  unfoldable pub serve : Event → World → Option World
  unfolding dispatch
  serve ev w = dispatch w.phase ev w

  -- Worlds that some interleaving reaches.
  pub data Reach (w : World) : World → Type 0 where
    here : Reach w w
    own : {u v : World} (ev : Event) → Reach w u → IsPossible ev u → serve ev u ≡ some v → Reach w v
    other :
        {u : World} (a : Action) (h : Hub)
        → Reach w u
        → IsForeign u.client a
        → IsAllowed a u.hub
        → act a u.hub ≡ some h
        → Reach w (record u { hub = h })
