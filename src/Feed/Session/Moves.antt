-- ===== src/Feed/Session/Moves.antt =====
-- Each event of a session, and each step of another goroutine, keeps the session in step with the hub.
use mathlib.Core.List.{append-nil, append_assoc}
use mathlib.Core.Option.{some-injective}
use mathlib.Core.Path.{subst}
use pok.Feed.Client.{Envelope}
use pok.Feed.Hub.Steps.{Action, act, update, IsAllowed, receives-IsValid, takes-IsValid}
use pok.Feed.Hub.{Hub}
use pok.Feed.Session.{
  Phase, accepting, upgraded, sending, live, woken, gone, World, Event, accepts, rejects, seeds,
  writes, settles, disconnects, shuts_down, wakes, collects, write_json, dispatch, serve, IsForeign,
  IsPossible, Reach, here, own, other,
}
use pok.Prelude.Bytes.{Bytes, bytes_key}
use pok.Prelude.Lists.{length-append}
use pok.Prelude.Tests.{Bool-cases, nat_key}
use pok.Prelude.{◌+◌, ◌≡◌, inl, inr, Bool, some, List, [], ◌∷◌, ◌++◌, arith}
use pok.Feed.Session.Synced.{foreign-Effect, IsSynced}
use pok.Feed.Session.Linked.{
  foreign-IsLinked, foreign-IsMember, leave-IsSynced, seed-Shows, collect-Shows, collect-IsNotified,
  wake-Shows, act-IsValid_result,
}

module _ (valid : Bytes → Bool) where
  send-IsSynced :
      (e : Envelope) (es : List Envelope) (w : World)
      → IsSynced (sending (e ∷ es)) w
      → IsSynced (sending es) (record w {
        phase = sending es;
        received = w.received ++ e ∷ [];
        messages_sent = w.messages_sent + 1;
      })
  send-IsSynced e es w s = record {
    hub_valid = s.hub_valid;
    counted = omega (arith, s.counted, length-append w.received (e ∷ []));
    member = s.member;
    linked = (rw (append_assoc w.received (e ∷ []) es) s.linked.0, s.linked.1);
  }

  dispatch-IsSynced :
      (ph : Phase) (ev : Event) (w v : World)
      → IsSynced ph w
      → IsPossible ev w
      → dispatch valid ph ev w ≡ some v
      → IsSynced v.phase v
  unfolding dispatch
  dispatch-IsSynced accepting accepts w v s r q =
      subst (λ u. IsSynced u.phase u) (some-injective _ _ q)
        (record {
          hub_valid = s.hub_valid;
          counted = s.counted;
          member = s.member;
          linked = s.linked;
        })
  dispatch-IsSynced accepting rejects w v s r q = leave-IsSynced accepting w v s s.member q
  dispatch-IsSynced upgraded (seeds order) w v s r q =
      subst (λ u. IsSynced u.phase u) (some-injective _ _ q)
        (record {
          hub_valid = s.hub_valid;
          counted = s.counted;
          member = s.member;
          linked = (seed-Shows order w s r, s.linked.1);
        })
  dispatch-IsSynced (sending (e ∷ es)) (writes connected) w v s r q =
      elim (Bool-cases (write_json valid e connected)) [
        | inl sent ↦
            subst (λ u. IsSynced u.phase u) (some-injective _ _ (rw sent at q))
              (send-IsSynced e es w s)
        | inr failed ↦ leave-IsSynced (sending (e ∷ es)) w v s s.member (rw failed at q)
      ]
  dispatch-IsSynced (sending []) settles w v s r q =
      subst (λ u. IsSynced u.phase u) (some-injective _ _ q)
        (record {
          hub_valid = s.hub_valid;
          counted = s.counted;
          member = s.member;
          linked = (rw (append-nil w.received) at s.linked.0, s.linked.1);
        })
  dispatch-IsSynced live disconnects w v s r q = leave-IsSynced live w v s s.member q
  dispatch-IsSynced live shuts_down w v s r q = leave-IsSynced live w v s s.member q
  dispatch-IsSynced live wakes w v s r q = elim (Bool-cases (w.hub.heap w.client).notify) [
    | inl token ↦
        subst (λ u. IsSynced u.phase u) (some-injective _ _ (rw token at q))
          (record {
            hub_valid = receives-IsValid w.client w.hub s.hub_valid;
            counted = s.counted;
            member = unfold update in s.member;
            linked = wake-Shows w.received w.client w.hub s.linked.0;
          })
    | inr idle ↦ cc
  ]
  dispatch-IsSynced woken collects w v s r q =
      subst (λ u. IsSynced u.phase u) (some-injective _ _ q)
        (record {
          hub_valid = takes-IsValid w.client w.hub s.hub_valid;
          counted = s.counted;
          member = unfold update in s.member;
          linked = (collect-Shows w s, collect-IsNotified w.client w.hub);
        })
  dispatch-IsSynced _ _ w v s r q = cc

  own-IsSynced :
      (ev : Event) (w v : World)
      → IsSynced w.phase w
      → IsPossible ev w
      → serve valid ev w ≡ some v
      → IsSynced v.phase v
  unfolding serve
  own-IsSynced ev w v s r q = dispatch-IsSynced w.phase ev w v s r q

  foreign-IsSynced :
      (ph : Phase) (a : Action) (w : World) (h : Hub)
      → IsSynced ph w
      → IsForeign w.client a
      → IsAllowed a w.hub
      → act a w.hub ≡ some h
      → IsSynced ph (record w { hub = h })
  foreign-IsSynced gone a w h s f r q = record {
    hub_valid = act-IsValid_result a w.hub h s.hub_valid r q;
    counted = s.counted;
    member = tt;
    linked = tt;
  }
  foreign-IsSynced ph a w h s f r q =
      let e = foreign-Effect w.client w.hub s.hub_valid s.member a h f r q in
      record {
        hub_valid = act-IsValid_result a w.hub h s.hub_valid r q;
        counted = s.counted;
        member = foreign-IsMember ph w h e;
        linked = foreign-IsLinked ph w h s.member e s.linked;
      }

  -- Every event and every foreign step keeps the session in step with the hub.
  pub Reach-IsSynced : {w v : World} → IsSynced w.phase w → Reach valid w v → IsSynced v.phase v
  Reach-IsSynced s here = s
  Reach-IsSynced s (own {u} {v} ev r possible q) =
      own-IsSynced ev u v (Reach-IsSynced s r) possible q
  Reach-IsSynced s (other {u} a h r f allowed q) =
      foreign-IsSynced u.phase a u h (Reach-IsSynced s r) f allowed q
