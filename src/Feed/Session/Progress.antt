-- ===== src/Feed/Session/Progress.antt =====
-- A session whose connection works catches up: from the select it needs no more than the token, the
-- queue and the writes to show the browser everything that the hub has.
use mathlib.Core.Option.{some-injective}
use mathlib.Core.Path.{subst}
use pok.Feed.Client.{Envelope, take, receive_notify}
use pok.Feed.Hub.Steps
use pok.Feed.Hub.Steps.{update}
use pok.Feed.Hub.Valid.{new_hub-IsValid}
use pok.Feed.Hub.{Hub, new_hub}
use pok.Feed.Client.Coalesce.{last_update}
use pok.Feed.Session.Delivery.{delivery, open_session-IsSynced}
use pok.Feed.Session.Json.{
  IsJson, HoldsJson, RunsJson, IsClean, Reach-IsClean, open_session-IsClean, All-take,
}
use pok.Feed.Session.Linked.{heap-update}
use pok.Feed.Session.Moves.{Reach-IsSynced}
use pok.Feed.Session.Synced.{IsSynced, IsMember}
use pok.Feed.Session.{
  sending, live, woken, World, Event, seeds, writes, settles, wakes, collects, open_session, serve,
  IsPossible, Reach, own,
}
use pok.Prelude.Bytes.{Bytes, bytes_key}
use pok.Prelude.Lists.{All, contains}
use pok.Prelude.Maps.{lookup}
use pok.Prelude.Tests.{nat_key, Bool-cases, Option-cases, if◌then◌else◌}
use pok.Prelude.{
  ℕ, ◌+◌, ◌≡◌, refl, ap, ◌∙◌, inl, inr, Bool, true, false, Option, none, some, List, [], ◌∷◌, ◌++◌,
  arith,
}

module _ (valid : Bytes → Bool) where
  unfoldable pub serve_all : List Event → World → Option World
  serve_all [] w = some w
  serve_all (ev ∷ evs) w = elim (serve valid ev w) [ none ↦ none | some v ↦ serve_all evs v ]

  -- Every write succeeds, and the loop ends.
  unfoldable pub flush_events : List Envelope → List Event
  flush_events [] = settles ∷ []
  flush_events (e ∷ es) = writes true ∷ flush_events es

  -- What a session in the select does next, if nothing intervenes and the connection works.
  unfoldable pub catch_up : World → List Event
  unfolding flush_events
  catch_up w =
      if (w.hub.heap w.client).notify
      then wakes ∷ collects ∷ flush_events (take (w.hub.heap w.client)).0
      else []

  abbrev pub IsSeedless : Event → Type 0
  IsSeedless (seeds order) = ⊥
  IsSeedless _ = Unit

  possible : (ev : Event) (w : World) → IsSeedless ev → IsPossible ev w
  possible (seeds order) w s = absurd s
  possible _ w s = tt

  pub serve_all-Reach :
      {w : World} (evs : List Event) (u v : World)
      → All IsSeedless evs
      → serve_all evs u ≡ some v
      → Reach valid w u
      → Reach valid w v
  unfolding serve_all
  serve_all-Reach [] u v s q r = subst (Reach valid _) (some-injective u v q) r
  serve_all-Reach (ev ∷ evs) u v s q r = elim (Option-cases (serve valid ev u)) [
    | inl e ↦ ground (arith, e)
    | inr (x, e) ↦
        serve_all-Reach evs x v s.1 (rw (e, serve_all) at q) (own ev r (possible ev u s.0) e)
  ]

  pub flush_events-IsSeedless : (es : List Envelope) → All IsSeedless (flush_events es)
  unfolding flush_events
  flush_events-IsSeedless [] = (tt, tt)
  flush_events-IsSeedless (e ∷ es) = (tt, flush_events-IsSeedless es)

  abbrev sent : Envelope → List Envelope → World → World
  sent e es w = record w {
    phase = sending es;
    received = w.received ++ e ∷ [];
    messages_sent = w.messages_sent + 1;
  }

  write_step :
      (e : Envelope) (es : List Envelope) (w : World)
      → IsJson valid e
      → w.phase ≡ sending (e ∷ es)
      → serve valid (writes true) w ≡ some (sent e es w)
  unfolding serve
  write_step e es w j ph = rw (ph, serve) (rw j)

  pub flush :
      (es : List Envelope) (w : World)
      → All (IsJson valid) es
      → w.phase ≡ sending es
      → (v : World) × (serve_all (flush_events es) w ≡ some v)
        × (v.phase ≡ live)
        × (v.hub ≡ w.hub)
        × (v.client ≡ w.client)
  unfolding serve_all flush_events serve
  flush [] w j ph = (record w { phase = live }, rw (ph, serve), refl, refl, refl)
  flush (e ∷ es) w j ph =
      let (v, q, a, b, c) = flush es (sent e es w) j.1 refl in
      (v, rw (write_step e es w j.0 ph, serve_all) q, a, b, c)

  -- The session after it has received its token and taken its queue.
  abbrev collected : World → World
  collected w = record w {
    hub = update w.client (λ q. (take q).1) (update w.client receive_notify w.hub);
    phase = sending (take ((update w.client receive_notify w.hub).heap w.client)).0;
  }

  wake_step :
      (w : World)
      → w.phase ≡ live
      → (w.hub.heap w.client).notify ≡ true
      → serve valid wakes w
        ≡ some (record w { hub = update w.client receive_notify w.hub; phase = woken })
  unfolding serve
  wake_step w ph token = rw (ph, serve) (rw token)

  catch_up_token :
      (w : World)
      → (w.hub.heap w.client).notify ≡ true
      → catch_up w ≡ wakes ∷ collects ∷ flush_events (take (w.hub.heap w.client)).0
  unfolding catch_up
  catch_up_token w token = rw token

  catch_up_idle : (w : World) → (w.hub.heap w.client).notify ≡ false → catch_up w ≡ []
  unfolding catch_up
  catch_up_idle w idle = rw idle

  catch_up-IsSeedless : (w : World) → All IsSeedless (catch_up w)
  catch_up-IsSeedless w = elim (Bool-cases (w.hub.heap w.client).notify) [
    | inl token ↦ rw (catch_up_token w token) (tt, (tt, flush_events-IsSeedless _))
    | inr idle ↦ rw (catch_up_idle w idle) tt
  ]

  wake_steps :
      (evs : List Event) (w : World)
      → w.phase ≡ live
      → (w.hub.heap w.client).notify ≡ true
      → serve_all (wakes ∷ collects ∷ evs) w ≡ serve_all evs (collected w)
  unfolding serve_all serve
  wake_steps evs w ph token = rw (wake_step w ph token, serve_all)

  collected_idle : (w : World) → ((collected w).hub.heap (collected w).client).notify ≡ false
  collected_idle w =
      rw (heap-update w.client (λ q. (take q).1) (update w.client receive_notify w.hub)) (
        unfold take in
        rw (heap-update w.client receive_notify w.hub) (unfold receive_notify in refl))

  collected_queue :
      (w : World)
      → (take ((update w.client receive_notify w.hub).heap w.client)).0
        ≡ (take (w.hub.heap w.client)).0
  collected_queue w =
      rw (heap-update w.client receive_notify w.hub) (unfold take receive_notify in refl)

  collected_state : (w : World) → (collected w).hub.state ≡ w.hub.state
  unfolding update
  collected_state w = refl

  module _ (n : ℕ) (h : Hub) (w₀ w : World) (before : Steps.Reach (new_hub n) h)
      (json : HoldsJson valid h.state) (opens : open_session h ≡ some w₀) (run : Reach valid w₀ w)
      (runs_json : RunsJson valid run) (waits : w.phase ≡ live) where
    synced : IsSynced w.phase w
    synced =
        Reach-IsSynced valid
          (open_session-IsSynced h w₀ (Steps.Reach-IsValid (new_hub-IsValid n) before) opens) run

    member : IsSynced w.phase w → contains w.client w.hub.clients ≡ true
    member s = let m : IsMember live w = rw waits at s.member in m

    clean : IsClean valid w.phase w
    clean =
        Reach-IsClean valid run runs_json
          (open_session-IsSynced h w₀ (Steps.Reach-IsValid (new_hub-IsValid n) before) opens)
          (open_session-IsClean valid h w₀ json opens)

    arrives :
        (v : World)
        → serve_all (catch_up w) w ≡ some v
        → v.phase ≡ live
        → (v.hub.heap v.client).notify ≡ false
        → v.hub.state ≡ w.hub.state
        → (k : Bytes) → last_update k v.received ≡ lookup k w.hub.state
    arrives v q ph idle same k =
        (delivery valid n h w₀ v before opens
            (serve_all-Reach (catch_up w) w v (catch_up-IsSeedless w) q run) ph idle).0
          k
        ∙ ap (lookup k) same

    -- From the select, with only JSON published so far and nothing else happening, receiving the
    -- token, taking the queue and writes that succeed lead back to the select, and then the last
    -- envelope that the browser was sent for each subject is the one that the hub had at the start.
    pub catch_up-delivers :
        (v : World) × (serve_all (catch_up w) w ≡ some v)
        × (v.phase ≡ live)
        × ((k : Bytes) → last_update k v.received ≡ lookup k w.hub.state)
    catch_up-delivers = elim (Bool-cases (w.hub.heap w.client).notify) [
      | inl token ↦
          let (v, q, ph, hub, client) =
            flush (take (w.hub.heap w.client)).0 (collected w)
              (All-take valid w.client w.hub synced.hub_valid (member synced) clean.0)
              (ap sending (collected_queue w)) in
          let steps : serve_all (catch_up w) w ≡ some v =
            rw (catch_up_token w token) (wake_steps _ w waits token ∙ q) in
          (
            v,
            steps,
            ph,
            arrives v steps ph (rw (hub, client) (collected_idle w)) (rw hub (collected_state w)),
          )
      | inr idle ↦
          let stays : serve_all (catch_up w) w ≡ some w =
            rw (catch_up_idle w idle) (unfold serve_all in refl) in
          (w, stays, waits, arrives w stays waits idle refl)
    ]
