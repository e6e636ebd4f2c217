-- ===== src/Feed/Session/Linked.antt =====
-- The single steps from which an event of a session, or one of another goroutine, is made.
use mathlib.Core.Option.{some-injective}
use mathlib.Core.Path.{subst}
use pok.Feed.Client.{Envelope, Client, take, receive_notify}
use pok.Feed.Hub.Steps.{Action, act, update, IsAllowed, act-IsValid}
use pok.Feed.Hub.Valid.{IsValid, unregister_lem, without, without-IsValid}
use pok.Feed.Hub.{Hub, snapshot}
use pok.Feed.Session.{Phase, accepting, upgraded, sending, live, woken, gone, World, leave}
use pok.Prelude.Bytes.{Bytes, bytes_key}
use pok.Prelude.Lists.{contains}
use pok.Prelude.Maps.{IsRange, lookup, has, lookup_missing}
use pok.Prelude.Tests.{eq_refl, nat_key}
use pok.Prelude.{ℕ, ◌≡◌, refl, sym, ◌∙◌, true, none, some, List, ◌++◌, arith}
use pok.Feed.Session.View.{last_update-append, last_update-snapshot, last_update-take}
use pok.Feed.Session.Synced.{
  Effect, Shows, IsNotified, IsLinked, IsMember, IsSynced, Effect-Shows, Effect-IsNotified,
  Effect-contains,
}

-- A foreign step keeps the session in step with the hub.
pub foreign-IsLinked :
    (ph : Phase) (w : World) (h : Hub)
    → IsMember ph w
    → Effect w.client w.hub h
    → IsLinked ph w
    → IsLinked ph (record w { hub = h })
foreign-IsLinked accepting w h m e (r, n) = (r, Effect-IsNotified e n)
foreign-IsLinked upgraded w h m e (r, n) = (r, Effect-IsNotified e n)
foreign-IsLinked (sending es) w h m e (s, n) =
    (Effect-Shows (w.received ++ es) e s, Effect-IsNotified e n)
foreign-IsLinked live w h m e (s, n) = (Effect-Shows w.received e s, Effect-IsNotified e n)
foreign-IsLinked woken w h m e s = Effect-Shows w.received e s
foreign-IsLinked gone w h m e s = tt

pub foreign-IsMember :
    (ph : Phase) (w : World) (h : Hub)
    → Effect w.client w.hub h
    → IsMember ph (record w { hub = h })
foreign-IsMember gone w h e = tt
foreign-IsMember _ w h e = Effect-contains e

-- The deferred unregister of a registered client does not panic.
pub leave_lem :
    (w : World) (v : IsValid w.hub) (m : contains w.client w.hub.clients ≡ true)
    → leave w ≡ some (record w { hub = without w.hub v w.client; phase = gone })
unfolding leave
leave_lem w v m = rw (unregister_lem w.hub v w.client m, leave)

pub leave-IsSynced :
    (ph : Phase) (w v : World)
    → IsSynced ph w
    → contains w.client w.hub.clients ≡ true
    → leave w ≡ some v
    → IsSynced v.phase v
leave-IsSynced ph w v s m q =
    subst (λ u. IsSynced u.phase u) (some-injective _ _ (sym (leave_lem w s.hub_valid m) ∙ q))
      (record {
        hub_valid = without-IsValid w.hub s.hub_valid w.client m;
        counted = s.counted;
        member = tt;
        linked = tt;
      })

pub heap-update : (p : ℕ) (f : Client → Client) (h : Hub) → (update p f h).heap p ≡ f (h.heap p)
unfolding update
heap-update p f h = rw (eq_refl p)

pub state-update : (p : ℕ) (f : Client → Client) (h : Hub) → (update p f h).state ≡ h.state
unfolding update
state-update p f h = refl

pub lookup-emptied : (k : Bytes) (c : Client) → lookup k (take c).1.pending ≡ none
unfolding take lookup
lookup-emptied k c = refl

-- The snapshot shows the state, and the queue beside it agrees with the state.
pub seed-Shows :
    (order : List Bytes) (w : World)
    → IsSynced upgraded w
    → IsRange (λ k. has k w.hub.state) order
    → Shows (w.received ++ snapshot order w.hub) w.client w.hub
seed-Shows order w s r = record {
  at = λ k. ground (
    arith,
    s.linked.0,
    last_update-snapshot k order w.hub s.hub_valid r,
    s.hub_valid.current w.client k s.member,
    lookup_missing k (w.hub.heap w.client).pending,
  );
}

pub collect-Shows :
    (w : World)
    → IsSynced woken w
    → Shows
        (w.received ++ (take (w.hub.heap w.client)).0)
        w.client
        (update w.client (λ q. (take q).1) w.hub)
collect-Shows w s = record {
  at = λ k. rw (heap-update w.client (λ q. (take q).1) w.hub) (
      ground (
        arith,
        lookup-emptied k (w.hub.heap w.client),
        state-update w.client (λ q. (take q).1) w.hub,
        last_update-append k w.received (take (w.hub.heap w.client)).0,
        last_update-take k (w.hub.heap w.client) (s.hub_valid.queues w.client s.member),
        s.linked.at k,
      ));
}

pub collect-IsNotified : (p : ℕ) (h : Hub) → IsNotified p (update p (λ q. (take q).1) h)
collect-IsNotified p h = record {
  at = λ k. rw (heap-update p (λ q. (take q).1) h) (unfold take has in λ m. cc);
}

pub wake-Shows :
    (es : List Envelope) (p : ℕ) (h : Hub) → Shows es p h → Shows es p (update p receive_notify h)
wake-Shows es p h s = record {
  at = λ k. rw (heap-update p receive_notify h) (unfold receive_notify update in s.at k);
}

pub act-IsValid_result :
    (a : Action) (h h' : Hub) → IsValid h → IsAllowed a h → act a h ≡ some h' → IsValid h'
act-IsValid_result a h h' v r q =
    let (g, p, w) = act-IsValid a h v r in subst IsValid (some-injective g h' (sym p ∙ q)) w
