-- ===== src/Feed/Session/Seeded.antt =====
-- What a new session sends first: everything that the hub has.
use pok.Feed.Client.Coalesce.{last_update}
use pok.Feed.Client.{new_client}
use pok.Feed.Hub.Steps
use pok.Feed.Hub.{Hub, store, new_hub, admit, snapshot}
use pok.Feed.Session.Delivery.{delivery, opened, open_session_lem}
use pok.Feed.Session.Ended.{step_then}
use pok.Feed.Session.Json.{IsJson, HoldsJson, All-range}
use pok.Feed.Session.Progress.{
  serve_all, serve_all-Reach, flush_events, flush_events-IsSeedless, flush,
}
use pok.Feed.Session.{
  upgraded, sending, live, World, Event, accepts, seeds, open_session, serve, dispatch, Reach, own,
  here,
}
use pok.Prelude.Bytes.{Bytes, bytes_key}
use pok.Prelude.Lists.{All, length}
use pok.Prelude.Maps.{lookup, has, IsRange}
use pok.Prelude.Tests.{nat_key, eq_refl}
use pok.Prelude.{ℕ, ◌<◌, ◌≡◌, refl, ap, ◌∙◌, Bool, false, some, List, ◌∷◌, arith}

-- The handshake, the snapshot in some order of its subjects, and writes that succeed.
unfoldable pub arrive : (Bytes → Bool) → List Bytes → Hub → List Event
unfolding flush_events
arrive valid order h = accepts ∷ seeds order ∷ flush_events valid (snapshot order h)

module _ (valid : Bytes → Bool) (n : ℕ) (h : Hub) (before : Steps.Reach (new_hub n) h)
    (json : HoldsJson valid h.state) (room : length h.clients < h.max_clients) (order : List Bytes)
    (ranges : IsRange (λ k. has k h.state) order) where
  abbrev ready : World
  ready = record (opened h) { phase = upgraded }

  abbrev seeded : World
  seeded = record (opened h) { phase = sending (snapshot order h) }

  opens : open_session h ≡ some (opened h)
  opens = open_session_lem h ∙ ground arith

  accept_step : serve valid accepts (opened h) ≡ some ready
  unfolding serve dispatch opened
  accept_step = refl

  seed_step : serve valid (seeds order) ready ≡ some seeded
  unfolding serve dispatch opened admit snapshot
  seed_step = refl

  snapshot-IsJson : All (IsJson valid) (snapshot order h)
  unfolding snapshot
  snapshot-IsJson = All-range valid order h.state json

  idle : ((opened h).hub.heap (opened h).client).notify ≡ false
  unfolding opened admit store new_client
  idle = rw (eq_refl h.next)

  same_state : (opened h).hub.state ≡ h.state
  unfolding opened admit
  same_state = refl

  seeded-Reach : Reach valid (opened h) seeded
  unfolding opened admit
  seeded-Reach = own (seeds order) (own accepts here tt accept_step) ranges seed_step

  arrive_steps :
      serve_all valid (arrive valid order h) (opened h)
      ≡ serve_all valid (flush_events valid (snapshot order h)) seeded
  unfolding arrive
  arrive_steps =
      step_then valid (opened h) ready accepts (seeds order ∷ flush_events valid (snapshot order h))
        accept_step
      ∙ step_then valid ready seeded (seeds order) (flush_events valid (snapshot order h)) seed_step

  -- A new session on a hub that any history led to, which holds only JSON and has room: if nothing
  -- else happens and its writes succeed, it gets to the select, and then the last envelope that its
  -- browser was sent for each subject is the hub's.
  pub arrive-seeded :
      (w v : World) × (open_session h ≡ some w)
      × (serve_all valid (arrive valid order h) w ≡ some v)
      × (v.phase ≡ live)
      × ((k : Bytes) → last_update k v.received ≡ lookup k h.state)
  arrive-seeded =
      let (v, q, ph, hub, client) = flush valid (snapshot order h) seeded snapshot-IsJson refl in
      let run : Reach valid (opened h) v =
        serve_all-Reach valid (flush_events valid (snapshot order h)) seeded v
          (flush_events-IsSeedless valid (snapshot order h)) q seeded-Reach in
      let quiet : (v.hub.heap v.client).notify ≡ false = rw (hub, client) idle in
      (
        opened h,
        v,
        opens,
        arrive_steps ∙ q,
        ph,
        λ k.
            (delivery valid n h (opened h) v before opens run ph quiet).0 k
            ∙ ap (lookup k) (rw hub same_state),
      )
