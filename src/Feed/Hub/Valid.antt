-- ===== src/Feed/Hub/Valid.antt =====
-- The invariant of the hub and its clients, and that each method keeps it.
use pok.Feed.Client.Valid.{
  IsKeyed, IsKeyed-insert, IsKeyed-nil, new_client-IsValid, enqueue-IsValid, length-order-le,
}
use native.Mathlib.Decide.{dec_lt}
use pok.Feed.Client.Valid
use pok.Feed.Client.{Envelope, new_client, enqueue}
use pok.Feed.Hub.{Heap, Hub, store, new_hub, broadcast, publish, admit, register, unregister}
use pok.Prelude.Bytes.{Bytes, bytes_key}
use pok.Prelude.Lists.{
  length, contains, Distinct, remove, length-append, contains-snoc, Distinct-snoc, contains-remove,
  Distinct-remove, length-remove,
}
use pok.Prelude.Maps.{IsRange, lookup, has, lookup-insert, has-insert}
use pok.Prelude.Tests.{◌==◌, eq_iff, Bool-cases, if◌then◌else◌, nat_key}
use pok.Prelude.{ℕ, ◌-◌, ◌≤◌, ◌<◌, ◌≡◌, refl, inl, inr, true, false, some, List, [], ◌∷◌, arith}

-- One round over distinct clients reaches each of them once, in whatever order.
pub broadcast_lem :
    (order : List ℕ) (e : Envelope) (heap : Heap) (p : ℕ)
    → Distinct order
    → broadcast order e heap p ≡ (if contains p order then enqueue (heap p) e else heap p)
unfolding broadcast contains store
broadcast_lem [] e heap p d = refl
broadcast_lem (c ∷ order) e heap p d =
    ground (arith, broadcast_lem order e (store c (enqueue (heap c) e) heap) p d.1, eq_iff c p)

pub record IsValid (h : Hub) : Type 0 where
  pub once : Distinct h.clients
  pub known : (c : ℕ) → contains c h.clients ≡ true → c < h.next
  pub capped : length h.clients ≤ h.max_clients
  pub counted : h.sessions ≡ length h.clients
  pub keyed : IsKeyed h.state
  pub queues : (c : ℕ) → contains c h.clients ≡ true → Valid.IsValid (h.heap c)
  pub current :
      (c : ℕ) (k : Bytes)
      → contains c h.clients ≡ true
      → has k (h.heap c).pending ≡ true
      → lookup k (h.heap c).pending ≡ lookup k h.state

pub new_hub-IsValid : (max_clients : ℕ) → IsValid (new_hub max_clients)
unfolding new_hub contains
new_hub-IsValid max_clients = record {
  once = tt;
  known = λ c m. cc;
  capped = omega arith;
  counted = refl;
  keyed = IsKeyed-nil;
  queues = λ c m. cc;
  current = λ c k m p. cc;
}

module _ (order : List ℕ) (e : Envelope) (h : Hub) where
  -- `publish` queues the update for every client and for nobody else.
  pub heap-publish :
      (c : ℕ)
      → IsRange (λ p. contains p h.clients) order
      → (publish order e h).heap c
        ≡ (if contains c h.clients then enqueue (h.heap c) e else h.heap c)
  unfolding publish
  heap-publish c r = ground (arith, r.all c, broadcast_lem order e h.heap c r.once)

  publish-queues :
      (c : ℕ)
      → IsRange (λ p. contains p h.clients) order
      → IsValid h
      → contains c h.clients ≡ true
      → Valid.IsValid ((publish order e h).heap c)
  publish-queues c r v m = rw (heap-publish c r, m) (enqueue-IsValid (h.heap c) e (v.queues c m))

  publish-current :
      (c : ℕ) (k : Bytes)
      → IsRange (λ p. contains p h.clients) order
      → IsValid h
      → contains c h.clients ≡ true
      → has k ((publish order e h).heap c).pending ≡ true
      → lookup k ((publish order e h).heap c).pending ≡ lookup k (publish order e h).state
  publish-current c k r v m =
      rw (heap-publish c r, m)
        (unfold publish enqueue in
          λ p. ground (
            arith,
            lookup-insert e.subject k e (h.heap c).pending,
            lookup-insert e.subject k e h.state,
            has-insert e.subject k e (h.heap c).pending,
            v.current c k m,
          ))

  -- An update keeps the hub well formed, whatever the order in which the clients are visited.
  pub publish-IsValid :
      IsRange (λ p. contains p h.clients) order → IsValid h → IsValid (publish order e h)
  publish-IsValid r v = record {
    once = unfold publish in v.once;
    known = unfold publish in v.known;
    capped = unfold publish in v.capped;
    counted = unfold publish in v.counted;
    keyed = unfold publish in IsKeyed-insert e h.state v.keyed;
    queues = λ c. unfold publish in publish-queues c r v;
    current = λ c k. unfold publish in publish-current c k r v;
  }

-- The address that `register` hands out belongs to no client.
pub next-fresh : (h : Hub) → IsValid h → contains h.next h.clients ≡ false
next-fresh h v = elim (Bool-cases (contains h.next h.clients)) [
  | inl e ↦ absurd (omega (arith, v.known h.next e))
  | inr e ↦ e
]

module _ (h : Hub) (v : IsValid h) where
  admit-known : (c : ℕ) → contains c (admit h).clients ≡ true → c < (admit h).next
  unfolding admit
  admit-known c m = ground (arith, contains-snoc c h.next h.clients, v.known c)

  admit-queues : (c : ℕ) → contains c (admit h).clients ≡ true → Valid.IsValid ((admit h).heap c)
  unfolding admit
  admit-queues c m = elim (Bool-cases (h.next == c)) [
    | inl e ↦ rw e new_client-IsValid
    | inr e ↦ rw e (v.queues c (ground (arith, contains-snoc c h.next h.clients)))
  ]

  admit-current :
      (c : ℕ) (k : Bytes)
      → contains c (admit h).clients ≡ true
      → has k ((admit h).heap c).pending ≡ true
      → lookup k ((admit h).heap c).pending ≡ lookup k (admit h).state
  unfolding admit new_client has
  admit-current c k m p = ground (arith, contains-snoc c h.next h.clients, v.current c k)

  pub admit-IsValid : length h.clients < h.max_clients → IsValid (admit h)
  admit-IsValid room = record {
    once = unfold admit in Distinct-snoc h.next h.clients (next-fresh h v) v.once;
    known = admit-known;
    capped = unfold admit in omega (arith, length-append h.clients (h.next ∷ []));
    counted = unfold admit in omega (arith, v.counted, length-append h.clients (h.next ∷ []));
    keyed = unfold admit in v.keyed;
    queues = admit-queues;
    current = admit-current;
  }

  -- Admission keeps the hub well formed, refused or granted.
  pub register-IsValid : IsValid (register h).1
  unfolding register
  register-IsValid = elim (dec_lt (length h.clients) h.max_clients) [
    | yes room ↦ ground (arith, admit-IsValid room)
    | no full ↦ ground arith
  ]

  -- What `unregister` leaves behind.
  abbrev pub without : ℕ → Hub
  without c = record h { clients = remove c h.clients; sessions = h.sessions - 1 }

  -- A registered client leaves without a panic.
  pub unregister_lem : (c : ℕ) → contains c h.clients ≡ true → unregister c h ≡ some (without c)
  unfolding unregister
  unregister_lem c m = ground (arith, v.counted, length-remove c h.clients v.once)

  without-known : (c d : ℕ) → contains d (without c).clients ≡ true → d < h.next
  without-known c d m = ground (arith, contains-remove c d h.clients, v.known d)

  -- Leaving keeps the hub well formed.
  pub without-IsValid : (c : ℕ) → contains c h.clients ≡ true → IsValid (without c)
  without-IsValid c m = record {
    once = Distinct-remove c h.clients v.once;
    known = without-known c;
    capped = omega (arith, v.capped, length-remove c h.clients v.once m);
    counted = omega (arith, v.counted, length-remove c h.clients v.once m);
    keyed = v.keyed;
    queues = λ d n. v.queues d (ground (arith, contains-remove c d h.clients));
    current = λ d k n. v.current d k (ground (arith, contains-remove c d h.clients));
  }
