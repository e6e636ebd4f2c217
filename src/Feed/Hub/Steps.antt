-- ===== src/Feed/Hub/Steps.antt =====
-- Every interleaving of the hub's methods with the sessions' reads of their queues.
use pok.Feed.Client.Valid.{take-IsValid, receive_notify-IsValid, length-order-le}
use mathlib.Core.Option.{some-injective}
use mathlib.Core.Path.{subst}
use pok.Feed.Client.Valid
use pok.Feed.Client.{Envelope, Client, take, receive_notify}
use pok.Feed.Hub.Valid.{
  IsValid, new_hub-IsValid, publish-IsValid, register-IsValid, unregister_lem, without,
  without-IsValid,
}
use pok.Feed.Hub.{Hub, store, new_hub, publish, admit, register, done, unregister}
use pok.Prelude.Bytes.{Bytes, bytes_key}
use pok.Prelude.Lists.{length, contains, length-remove, All, All-contains}
use pok.Prelude.Maps.{IsRange, lookup, has, has_of_lookup, lookup_present}
use pok.Prelude.Tests.{◌==◌, eq_iff, Bool-cases, nat_key}
use pok.Prelude.{ℕ, ◌≤◌, ◌≡◌, ◌↔◌, refl, sym, ◌∙◌, inl, inr, true, Option, none, some, List, arith}

-- One call under a lock, or one receive from a channel.
pub data Action : Type 0 where
  publishes : List ℕ → Envelope → Action
  registers : Action
  unregisters receives takes : ℕ → Action

-- A change of the client at an address.
unfoldable pub update : ℕ → (Client → Client) → Hub → Hub
unfolding store
update c f h = record h { heap = store c (f (h.heap c)) h.heap }

-- `none` is a panic.
unfoldable pub act : Action → Hub → Option Hub
unfolding update
act (publishes order e) h = some (publish order e h)
act registers h = some (register h).1
act (unregisters c) h = unregister c h
act (receives c) h = some (update c receive_notify h)
act (takes c) h = some (update c (λ q. (take q).1) h)

-- Only a session calls for its client, while it is registered; `range` visits every client once.
abbrev pub IsAllowed : Action → Hub → Type 0
IsAllowed (publishes order e) h = IsRange (λ p. contains p h.clients) order
IsAllowed registers h = Unit
IsAllowed (unregisters c) h = contains c h.clients ≡ true
IsAllowed (receives c) h = contains c h.clients ≡ true
IsAllowed (takes c) h = contains c h.clients ≡ true

-- Hubs that some interleaving reaches.
pub data Reach (h : Hub) : Hub → Type 0 where
  here : Reach h h
  next : {g g' : Hub} (a : Action) → Reach h g → IsAllowed a g → act a g ≡ some g' → Reach h g'

-- What a session does to its own queue keeps the hub well formed.
pub update-IsValid :
    (c : ℕ) (f : Client → Client) (h : Hub)
    → ((q : Client) → Valid.IsValid q → Valid.IsValid (f q))
    → ((q : Client) (k : Bytes)
        → has k (f q).pending ≡ true
        → (has k q.pending ≡ true) × (lookup k (f q).pending ≡ lookup k q.pending))
    → IsValid h
    → IsValid (update c f h)
unfolding update
update-IsValid c f h keeps shrinks v = record {
  once = v.once;
  known = v.known;
  capped = v.capped;
  counted = v.counted;
  keyed = v.keyed;
  queues = λ d m. elim (Bool-cases (c == d)) [
    | inl e ↦ rw e (keeps (h.heap c) (v.queues c (ground (arith, eq_iff c d))))
    | inr e ↦ rw e (v.queues d m)
  ];
  current = λ d k m. elim (Bool-cases (c == d)) [
    | inl e ↦ rw e (λ p.
        let e' : c ≡ d = (eq_iff c d).0 e in
        let q = shrinks (h.heap c) k p in q.1 ∙ rw e' (v.current d k m (rw e' at q.0)))
    | inr e ↦ rw e (v.current d k m)
  ];
}

emptied : (q : Client) (k : Bytes) → has k (take q).1.pending ≡ true → ⊥
unfolding take has
emptied q k p = cc

pub receives-IsValid : (c : ℕ) (h : Hub) → IsValid h → IsValid (update c receive_notify h)
receives-IsValid c h =
    update-IsValid c receive_notify h receive_notify-IsValid
      λ q k p. unfold receive_notify in (p, refl)

pub takes-IsValid : (c : ℕ) (h : Hub) → IsValid h → IsValid (update c (λ q. (take q).1) h)
takes-IsValid c h =
    update-IsValid c (λ q. (take q).1) h (λ q _. take-IsValid q) λ q k p. absurd (emptied q k p)

-- No call panics, and each keeps the hub well formed.
pub act-IsValid :
    (a : Action) (h : Hub)
    → IsValid h
    → IsAllowed a h
    → (h' : Hub) × (act a h ≡ some h') × IsValid h'
unfolding act
act-IsValid (publishes order e) h v r = (publish order e h, refl, publish-IsValid order e h r v)
act-IsValid registers h v _ = ((register h).1, refl, register-IsValid h v)
act-IsValid (unregisters c) h v m = (without h v c, unregister_lem h v c m, without-IsValid h v c m)
act-IsValid (receives c) h v m = (update c receive_notify h, refl, receives-IsValid c h v)
act-IsValid (takes c) h v m = (update c (λ q. (take q).1) h, refl, takes-IsValid c h v)

max_clients-act : (a : Action) (h h' : Hub) → act a h ≡ some h' → h'.max_clients ≡ h.max_clients
unfolding act publish register admit unregister done
max_clients-act (publishes order e) h h' p = ground arith
max_clients-act registers h h' p = ground arith
max_clients-act (unregisters c) h h' p = ground arith
max_clients-act (receives c) h h' p = ground arith
max_clients-act (takes c) h h' p = ground arith

pub Reach-IsValid : {h h' : Hub} → IsValid h → Reach h h' → IsValid h'
Reach-IsValid v here = v
Reach-IsValid v (next {g} {g'} a r allowed p) =
    let (g₁, q, w) = act-IsValid a g (Reach-IsValid v r) allowed in
    subst IsValid (some-injective g₁ g' (sym q ∙ p)) w

max_clients-Reach : {h h' : Hub} → Reach h h' → h'.max_clients ≡ h.max_clients
max_clients-Reach here = refl
max_clients-Reach (next {g} {g'} a r allowed p) = max_clients-act a g g' p ∙ max_clients-Reach r

max_clients-new_hub : (n : ℕ) → (new_hub n).max_clients ≡ n
unfolding new_hub
max_clients-new_hub n = refl

-- Whatever the interleaving, no call ever panics: an allowed action has a next state.
pub act-total :
    (n : ℕ) (h : Hub) (a : Action)
    → Reach (new_hub n) h
    → IsAllowed a h
    → (h' : Hub) × (act a h ≡ some h')
act-total n h a r allowed =
    let (h', p, v) = act-IsValid a h (Reach-IsValid (new_hub-IsValid n) r) allowed in (h', p)

-- Whatever the interleaving, there are never more clients than the cap, the sessions waited for are
-- the clients, and no client's queue holds more subjects than the hub itself.
pub Reach-bounds :
    (n : ℕ) (h : Hub)
    → Reach (new_hub n) h
    → (length h.clients ≤ n)
      × (h.sessions ≡ length h.clients)
      × All (λ c. length (h.heap c).order ≤ length h.state) h.clients
Reach-bounds n h r = (
  omega (arith, v.capped, max_clients-Reach r, max_clients-new_hub n),
  v.counted,
  All-contains (λ c. length (h.heap c).order ≤ length h.state) h.clients
      λ c m. length-order-le (h.heap c) h.state (v.queues c m) (known c m),
)
  where
    v : IsValid h
    v = Reach-IsValid (new_hub-IsValid n) r

    known :
        (c : ℕ)
        → contains c h.clients ≡ true
        → (k : Bytes) → has k (h.heap c).pending ≡ true
        → has k h.state ≡ true
    known c m k p =
        let (e, q) = lookup_present k (h.heap c).pending p in
        has_of_lookup k e h.state (sym (v.current c k m p) ∙ q)

register-none_iff :
    (h : Hub) → IsValid h → ((register h).0 ≡ none) ↔ (length h.clients ≡ h.max_clients)
unfolding register
register-none_iff h v = (λ p. ground (arith, v.capped), λ p. ground arith)

register-without :
    (h : Hub) (c : ℕ) (v : IsValid h)
    → contains c h.clients ≡ true
    → (register (without h v c)).0 ≡ some h.next
unfolding register
register-without h c v m = ground (arith, v.capped, length-remove c h.clients v.once)

-- A refusal means that the cap is reached, and the slot of a client that leaves admits the next.
pub register-after_leave :
    (h : Hub) (c : ℕ)
    → IsValid h
    → contains c h.clients ≡ true
    → (((register h).0 ≡ none) ↔ (length h.clients ≡ h.max_clients))
      × (h' : Hub) × (unregister c h ≡ some h')
      × ((register h').0 ≡ some h.next)
register-after_leave h c v m =
    (register-none_iff h v, without h v c, unregister_lem h v c m, register-without h c v m)
