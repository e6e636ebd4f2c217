-- ===== src/Feed/Session/Over.antt =====
-- Every session comes to its end, in whatever phase the shutdown finds it.
use pok.Feed.Client.{Envelope, take}
use pok.Feed.Hub.Steps
use pok.Feed.Hub.Steps.{update, takes-IsValid}
use pok.Feed.Hub.Valid.{IsValid, new_hub-IsValid}
use pok.Feed.Hub.{Hub, new_hub, snapshot}
use pok.Feed.Session.Delivery.{open_session-IsSynced}
use pok.Feed.Session.Ended.{
  write_out, wind_up, IsOver, serve_at, step_then, live_ends, write_out_ends,
}
use pok.Feed.Session.Moves.{Reach-IsSynced}
use pok.Feed.Session.Progress.{serve_all}
use pok.Feed.Session.Synced.{IsMember}
use pok.Feed.Session.{
  Phase, accepting, upgraded, sending, live, woken, gone, World, accepts, seeds, collects,
  open_session, dispatch, serve, Reach,
}
use pok.Prelude.Bytes.{Bytes}
use pok.Prelude.Lists.{contains}
use pok.Prelude.Tests.{nat_key}
use pok.Prelude.{◌≡◌, ◌≢◌, refl, ◌∙◌, ℕ, Bool, true, some, List}

module _ (valid : Bytes → Bool) (order : List Bytes) (connected : Envelope → Bool) where
  Ends : Phase → World → Type 0
  Ends ph w =
      (v : World) × (serve_all valid (wind_up valid order connected ph w) w ≡ some v) × IsOver w v

  upgraded-Ends :
      (w : World)
      → IsValid w.hub
      → contains w.client w.hub.clients ≡ true
      → w.phase ≡ upgraded
      → Ends upgraded w
  unfolding Ends wind_up
  upgraded-Ends w hv m ph =
      let es = snapshot order w.hub in
      let u : World = record w { phase = sending es } in
      let (v, q, over) = write_out_ends valid order connected es u hv m refl in
      let one : serve valid (seeds order) w ≡ some u =
        serve_at valid upgraded (seeds order) w ph ∙ unfold dispatch in refl in
      (
        v,
        step_then valid w u (seeds order) (write_out valid order connected es) one ∙ q,
        record { left = over.left; clients = over.clients },
      )

  accepting-Ends :
      (w : World)
      → IsValid w.hub
      → contains w.client w.hub.clients ≡ true
      → w.phase ≡ accepting
      → Ends accepting w
  unfolding Ends wind_up
  accepting-Ends w hv m ph =
      let u : World = record w { phase = upgraded } in
      let (v, q, over) = upgraded-Ends u hv m refl in
      let one : serve valid accepts w ≡ some u =
        serve_at valid accepting accepts w ph ∙ unfold dispatch in refl in
      (
        v,
        step_then valid w u accepts (wind_up valid order connected upgraded w) one ∙ q,
        record { left = over.left; clients = over.clients },
      )

  woken-Ends :
      (w : World)
      → IsValid w.hub
      → contains w.client w.hub.clients ≡ true
      → w.phase ≡ woken
      → Ends woken w
  unfolding Ends wind_up update
  woken-Ends w hv m ph =
      let es = (take (w.hub.heap w.client)).0 in
      let u : World = record w {
        hub = update w.client (λ q. (take q).1) w.hub;
        phase = sending es;
      } in
      let (v, q, over) =
        write_out_ends valid order connected es u (takes-IsValid w.client w.hub hv) m refl in
      let one : serve valid collects w ≡ some u =
        serve_at valid woken collects w ph ∙ unfold dispatch in refl in
      (
        v,
        step_then valid w u collects (write_out valid order connected es) one ∙ q,
        record { left = over.left; clients = over.clients },
      )

  ends :
      (ph : Phase) (w : World)
      → IsValid w.hub
      → contains w.client w.hub.clients ≡ true
      → w.phase ≡ ph
      → ph ≢ gone
      → Ends ph w
  ends accepting w hv m ph here = accepting-Ends w hv m ph
  ends upgraded w hv m ph here = upgraded-Ends w hv m ph
  ends (sending es) w hv m ph here =
      unfold Ends wind_up in write_out_ends valid order connected es w hv m ph
  ends live w hv m ph here = unfold Ends wind_up in live_ends valid w hv m ph
  ends woken w hv m ph here = woken-Ends w hv m ph
  ends gone w hv m ph here = absurd (here refl)

  member_of :
      (ph : Phase) (w : World) → IsMember ph w → ph ≢ gone → contains w.client w.hub.clients ≡ true
  member_of accepting w m here = m
  member_of upgraded w m here = m
  member_of (sending es) w m here = m
  member_of live w m here = m
  member_of woken w m here = m
  member_of gone w m here = absurd (here refl)

  -- A session opened on a hub that any history led to, in whatever phase it is but over: `write_json`
  -- of what is left in its hands, up to the first write that fails, and then the shutdown end it, with
  -- no panic, and no other client is unregistered. `connected` says which envelopes the connection takes.
  pub wind_up-ends :
      (n : ℕ) (h : Hub) (w₀ w : World)
      → Steps.Reach (new_hub n) h
      → open_session h ≡ some w₀
      → Reach valid w₀ w
      → w.phase ≢ gone
      → (v : World) × (serve_all valid (wind_up valid order connected w.phase w) w ≡ some v)
        × IsOver w v
  wind_up-ends n h w₀ w before opens run here =
      let s =
        Reach-IsSynced valid
          (open_session-IsSynced h w₀ (Steps.Reach-IsValid (new_hub-IsValid n) before) opens) run in
      unfold Ends in ends w.phase w s.hub_valid (member_of w.phase w s.member here) refl here
