-- ===== src/Feed/Session/Json.antt =====
-- A write fails only by its connection: no envelope that a session holds has a payload that
-- `json.Marshal` refuses, since the consumers publish none.
use mathlib.Core.Option.{some-injective}
use mathlib.Core.Path.{subst}
use pok.Feed.Client.{Envelope, take}
use pok.Feed.Hub.Steps
use pok.Feed.Hub.Steps.{
  Action, publishes, registers, unregisters, receives, takes, act, update, IsAllowed,
}
use pok.Feed.Hub.Valid.{IsValid, new_hub-IsValid}
use pok.Feed.Hub.{Hub, new_hub, publish, snapshot, admit, register, done, unregister}
use pok.Feed.Session.Delivery.{open_session-IsSynced}
use pok.Feed.Session.Moves.{Reach-IsSynced}
use pok.Feed.Session.Synced.{IsSynced}
use pok.Feed.Session.View.{take-range}
use pok.Feed.Session.{
  Phase, accepting, upgraded, sending, live, woken, gone, World, Event, accepts, rejects, seeds,
  writes, settles, disconnects, shuts_down, wakes, collects, open_session, leave, write_json,
  dispatch, serve, Reach, here, own, other,
}
use pok.Prelude.Bytes.{Bytes, bytes_key}
use pok.Prelude.Lists.{All, contains}
use pok.Prelude.Maps.{Map, lookup, range, lookup-insert, has_of_lookup}
use pok.Prelude.Tests.{nat_key, Bool-cases, Option-cases}
use pok.Prelude.{ℕ, ◌≡◌, sym, ◌∙◌, inl, inr, Bool, true, some, List, [], ◌∷◌, map, arith}

module _ (valid : Bytes → Bool) where
  abbrev pub IsJson : Envelope → Type 0
  IsJson e = valid e.payload ≡ true

  -- Every value of the map is JSON.
  pub record HoldsJson (m : Map Bytes Envelope) : Type 0 where
    pub at : (k : Bytes) (e : Envelope) → lookup k m ≡ some e → IsJson e

  pub HoldsJson-publish :
      (order : List ℕ) (e : Envelope) (h : Hub)
      → IsJson e
      → HoldsJson h.state
      → HoldsJson (publish order e h).state
  unfolding publish
  HoldsJson-publish order e h j s = record {
    at = λ k x q. ground (arith, lookup-insert e.subject k e h.state, s.at k x);
  }

  -- The action publishes nothing that is not JSON.
  abbrev pub PublishesJson : Action → Type 0
  PublishesJson (publishes order e) = IsJson e
  PublishesJson _ = Unit

  state-act :
      (a : Action) (h h' : Hub)
      → PublishesJson a
      → act a h ≡ some h'
      → HoldsJson h.state
      → HoldsJson h'.state
  unfolding act register admit unregister done
  state-act (publishes order e) h h' j q s =
      subst (λ (g : Hub). HoldsJson g.state) (some-injective _ _ q)
        (HoldsJson-publish order e h j s)
  state-act registers h h' j q s = let e : h'.state ≡ h.state = ground arith in rw e s
  state-act (unregisters c) h h' j q s = let e : h'.state ≡ h.state = ground arith in rw e s
  state-act (receives c) h h' j q s =
      subst (λ (g : Hub). HoldsJson g.state) (some-injective _ _ q) s
  state-act (takes c) h h' j q s = subst (λ (g : Hub). HoldsJson g.state) (some-injective _ _ q) s

  pub All-range :
      (order : List Bytes) (m : Map Bytes Envelope)
      → HoldsJson m
      → All IsJson (map (λ entry. entry.1) (range order m))
  unfolding range
  All-range [] m s = tt
  All-range (k ∷ order) m s = elim (Option-cases (lookup k m)) [
    | inl e ↦ rw (e, range) (All-range order m s)
    | inr (x, e) ↦ rw (e, range) (s.at k x e, All-range order m s)
  ]

  HoldsJson-pending :
      (c : ℕ) (h : Hub)
      → IsValid h
      → contains c h.clients ≡ true
      → HoldsJson h.state
      → HoldsJson (h.heap c).pending
  HoldsJson-pending c h v m s = record {
    at = λ k e q. s.at k e (sym (v.current c k m (has_of_lookup k e (h.heap c).pending q)) ∙ q);
  }

  pub All-take :
      (c : ℕ) (h : Hub)
      → IsValid h
      → contains c h.clients ≡ true
      → HoldsJson h.state
      → All IsJson (take (h.heap c)).0
  unfolding take
  All-take c h v m s =
      rw (take-range (h.heap c).order (h.heap c).pending (λ k p. sym ((v.queues c m).listed k) ∙ p))
        (All-range (h.heap c).order (h.heap c).pending (HoldsJson-pending c h v m s))

  abbrev pub InFlight : Phase → Type 0
  InFlight (sending es) = All IsJson es
  InFlight _ = Unit

  abbrev pub IsClean : Phase → World → Type 0
  IsClean ph w = HoldsJson w.hub.state × InFlight ph

  leave-IsClean : (w v : World) → HoldsJson w.hub.state → leave w ≡ some v → IsClean v.phase v
  unfolding leave unregister done
  leave-IsClean w v s q =
      let e : v.hub.state ≡ w.hub.state = ground arith in
      let p : v.phase ≡ gone = ground arith in rw (e, p) (s, tt)

  pub open_session-IsClean :
      (h : Hub) (w : World) → HoldsJson h.state → open_session h ≡ some w → IsClean w.phase w
  unfolding open_session register admit
  open_session-IsClean h w s q =
      let e : w.hub.state ≡ h.state = ground arith in
      let p : w.phase ≡ accepting = ground arith in rw (e, p) (s, tt)

  dispatch-IsClean :
      (ph : Phase) (ev : Event) (w v : World)
      → IsSynced ph w
      → IsClean ph w
      → dispatch valid ph ev w ≡ some v
      → IsClean v.phase v
  unfolding dispatch update
  dispatch-IsClean accepting accepts w v y (s, f) q =
      subst (λ (u : World). IsClean u.phase u) (some-injective _ _ q) (s, tt)
  dispatch-IsClean accepting rejects w v y (s, f) q = leave-IsClean w v s q
  dispatch-IsClean upgraded (seeds order) w v y (s, f) q =
      subst (λ (u : World). IsClean u.phase u) (some-injective _ _ q)
        (s, unfold snapshot in All-range order w.hub.state s)
  dispatch-IsClean (sending (e ∷ es)) (writes connected) w v y (s, f) q =
      elim (Bool-cases (write_json valid e connected)) [
        | inl sent ↦
            subst (λ (u : World). IsClean u.phase u) (some-injective _ _ (rw sent at q)) (s, f.1)
        | inr failed ↦ leave-IsClean w v s (rw failed at q)
      ]
  dispatch-IsClean (sending []) settles w v y (s, f) q =
      subst (λ (u : World). IsClean u.phase u) (some-injective _ _ q) (s, tt)
  dispatch-IsClean live disconnects w v y (s, f) q = leave-IsClean w v s q
  dispatch-IsClean live shuts_down w v y (s, f) q = leave-IsClean w v s q
  dispatch-IsClean live wakes w v y (s, f) q = elim (Bool-cases (w.hub.heap w.client).notify) [
    | inl token ↦
        subst (λ (u : World). IsClean u.phase u) (some-injective _ _ (rw token at q)) (s, tt)
    | inr idle ↦ cc
  ]
  dispatch-IsClean woken collects w v y (s, f) q =
      subst (λ (u : World). IsClean u.phase u) (some-injective _ _ q)
        (s, All-take w.client w.hub y.hub_valid y.member s)
  dispatch-IsClean _ _ w v y c q = cc

  -- Nobody in the run publishes anything that is not JSON.
  abbrev pub RunsJson : {w v : World} → Reach valid w v → Type 0
  RunsJson here = Unit
  RunsJson (own ev r _ _) = RunsJson r
  RunsJson (other a h r _ _ _) = PublishesJson a × RunsJson r

  pub Reach-IsClean :
      {w v : World} (r : Reach valid w v)
      → RunsJson r
      → IsSynced w.phase w
      → IsClean w.phase w
      → IsClean v.phase v
  unfolding serve
  Reach-IsClean here j y c = c
  Reach-IsClean (own {u} {v} ev r possible q) j y c =
      dispatch-IsClean u.phase ev u v (Reach-IsSynced valid y r) (Reach-IsClean r j y c) q
  Reach-IsClean (other {u} a h r f allowed q) j y c =
      let (s, g) = Reach-IsClean r j.1 y c in (state-act a u.hub h j.0 q s, g)

  -- If the hub held only JSON when the session opened and only JSON is published while it runs, then
  -- whenever an envelope is to be written, the write succeeds exactly if the connection takes it.
  pub write_json-Reach :
      (n : ℕ) (h : Hub) (w₀ w : World) (e : Envelope) (es : List Envelope) (connected : Bool)
      → Steps.Reach (new_hub n) h
      → HoldsJson h.state
      → open_session h ≡ some w₀
      → (r : Reach valid w₀ w) → RunsJson r
      → w.phase ≡ sending (e ∷ es)
      → write_json valid e connected ≡ connected
  unfolding write_json
  write_json-Reach n h w₀ w e es connected a s opens r j ph =
      let y = open_session-IsSynced h w₀ (Steps.Reach-IsValid (new_hub-IsValid n) a) opens in
      let c = Reach-IsClean r j y (open_session-IsClean h w₀ s opens) in
      let f : All IsJson (e ∷ es) = rw ph at c.1 in rw f.0
