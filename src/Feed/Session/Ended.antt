-- ===== src/Feed/Session/Ended.antt =====
-- A session ends once the shutdown is signalled, whatever its connection still takes.
use pok.Feed.Client.{Envelope, take}
use pok.Feed.Hub.Valid.{IsValid, without}
use pok.Feed.Hub.{snapshot}
use pok.Feed.Session.Linked.{leave_lem}
use pok.Feed.Session.Progress.{serve_all}
use pok.Feed.Session.{
  Phase, accepting, upgraded, sending, live, woken, gone, World, Event, accepts, seeds, writes,
  settles, shuts_down, collects, write_json, leave, dispatch, serve,
}
use pok.Prelude.Bytes.{Bytes}
use pok.Prelude.Lists.{contains, remove}
use pok.Prelude.Tests.{if◌then◌else◌, Bool-cases, nat_key}
use pok.Prelude.{◌+◌, ◌≡◌, refl, ap, ◌∙◌, inl, inr, Bool, true, some, List, [], ◌∷◌, ◌++◌}

-- The session is over, and of the clients only its own is not registered any more.
pub record IsOver (w v : World) : Type 0 where
  pub left : v.phase ≡ gone
  pub clients : v.hub.clients ≡ remove w.client w.hub.clients

leaves :
    (w : World)
    → IsValid w.hub
    → contains w.client w.hub.clients ≡ true
    → (v : World) × (leave w ≡ some v) × IsOver w v
leaves w v m = (
  record w { hub = without w.hub v w.client; phase = gone },
  leave_lem w v m,
  record { left = refl; clients = refl },
)

sent : Envelope → List Envelope → World → World
sent e es w = record w {
  phase = sending es;
  received = w.received ++ e ∷ [];
  messages_sent = w.messages_sent + 1;
}

module _ (valid : Bytes → Bool) where
  pub serve_at :
      (ph : Phase) (ev : Event) (w : World)
      → w.phase ≡ ph
      → serve valid ev w ≡ dispatch valid ph ev w
  unfolding serve
  serve_at ph ev w e = ap (λ p. dispatch valid p ev w) e

  pub step_then :
      (w u : World) (ev : Event) (evs : List Event)
      → serve valid ev w ≡ some u
      → serve_all valid (ev ∷ evs) w ≡ serve_all valid evs u
  unfolding serve_all
  step_then w u ev evs e = rw (e, serve_all)

  last_step :
      (w u : World) (ev : Event) → serve valid ev w ≡ some u → serve_all valid (ev ∷ []) w ≡ some u
  unfolding serve_all
  last_step w u ev e = rw (e, serve_all)

  pub live_ends :
      (w : World)
      → IsValid w.hub
      → contains w.client w.hub.clients ≡ true
      → w.phase ≡ live
      → (v : World) × (serve_all valid (shuts_down ∷ []) w ≡ some v) × IsOver w v
  live_ends w hv m ph =
      let (v, q, over) = leaves w hv m in
      (v, last_step w v shuts_down (serve_at live shuts_down w ph ∙ unfold dispatch in q), over)

module _ (valid : Bytes → Bool) (order : List Bytes) (connected : Envelope → Bool) where
  -- The writes, until one fails or all are done, and then the shutdown in the select.
  unfoldable pub write_out : List Envelope → List Event
  unfolding write_json
  write_out [] = settles ∷ shuts_down ∷ []
  write_out (e ∷ es) =
      let rest = write_out es in
      writes (connected e) ∷ (if write_json valid e (connected e) then rest else [])

  -- What is left of a session in each phase. `connected` says which envelopes its connection takes,
  -- and `order` how `range` visits the subjects if the snapshot is still to be taken.
  unfoldable pub wind_up : Phase → World → List Event
  unfolding write_out
  wind_up accepting w = accepts ∷ seeds order ∷ write_out (snapshot order w.hub)
  wind_up upgraded w = seeds order ∷ write_out (snapshot order w.hub)
  wind_up (sending es) w = write_out es
  wind_up live w = shuts_down ∷ []
  wind_up woken w = collects ∷ write_out (take (w.hub.heap w.client)).0
  wind_up gone w = []

  -- The envelope is written, or else the session is over.
  write_step :
      (e : Envelope) (es : List Envelope) (w : World)
      → w.phase ≡ sending (e ∷ es)
      → serve valid (writes (connected e)) w
        ≡ (if write_json valid e (connected e) then some (sent e es w) else leave w)
  unfolding dispatch sent
  write_step e es w ph = serve_at valid (sending (e ∷ es)) (writes (connected e)) w ph ∙ refl

  pub write_out_ends :
      (es : List Envelope) (w : World)
      → IsValid w.hub
      → contains w.client w.hub.clients ≡ true
      → w.phase ≡ sending es
      → (v : World) × (serve_all valid (write_out es) w ≡ some v) × IsOver w v
  unfolding write_out sent
  write_out_ends [] w hv m ph =
      let u : World = record w { phase = live } in
      let (v, q, over) = live_ends valid u hv m refl in
      (
        v,
        step_then valid w u settles (shuts_down ∷ [])
              (serve_at valid (sending []) settles w ph ∙ unfold dispatch in refl)
            ∙ q,
        record { left = over.left; clients = over.clients },
      )
  write_out_ends (e ∷ es) w hv m ph = elim (Bool-cases (write_json valid e (connected e))) [
    | inl h ↦
        let (v, q, over) = write_out_ends es (sent e es w) hv m refl in
        let one : serve valid (writes (connected e)) w ≡ some (sent e es w) =
          write_step e es w ph ∙ rw h in
        (
          v,
          rw h (step_then valid w (sent e es w) (writes (connected e)) (write_out es) one ∙ q),
          record { left = over.left; clients = over.clients },
        )
    | inr h ↦
        let (v, q, over) = leaves w hv m in
        let one : serve valid (writes (connected e)) w ≡ some v = write_step e es w ph ∙ rw h q in
        (v, rw h (last_step valid w v (writes (connected e)) one), over)
  ]
