-- ===== src/Feed/Client/Valid.antt =====
-- The well-formedness of a queue: `order` lists each pending subject once, an envelope stands under
-- its own subject, and a queue that is not empty has its token or is about to be taken.
use pok.Feed.Client.{Envelope, Client, new_client, enqueue, take, receive_notify, enqueue_all}
use pok.Prelude.Bytes.{Bytes, bytes_key}
use pok.Prelude.Lists.{length, contains, Distinct, contains-snoc, Distinct-snoc}
use pok.Prelude.Maps.{Map, lookup, has, insert, lookup-insert, has-insert, length-le_of_has}
use pok.Prelude.Tests.{eq_iff}
use pok.Prelude.{◌≤◌, ◌≡◌, refl, true, some, List, [], ◌∷◌, arith}

-- Every envelope stands under its own subject.
pub record IsKeyed (m : Map Bytes Envelope) : Type 0 where
  pub at : (k : Bytes) (e : Envelope) → lookup k m ≡ some e → e.subject ≡ k

pub IsKeyed-insert :
    (e : Envelope) (m : Map Bytes Envelope) → IsKeyed m → IsKeyed (insert e.subject e m)
IsKeyed-insert e m h = record {
  at = λ k x p. ground (arith, lookup-insert e.subject k e m, eq_iff e.subject k, h.at k x);
}

pub IsKeyed-nil : IsKeyed []
unfolding lookup
IsKeyed-nil = record { at = λ k e p. cc }

pub record IsValid (c : Client) : Type 0 where
  pub once : Distinct c.order
  pub listed : (k : Bytes) → contains k c.order ≡ has k c.pending
  pub keyed : IsKeyed c.pending

pub new_client-IsValid : IsValid new_client
unfolding new_client contains has
new_client-IsValid = record { once = tt; listed = λ k. refl; keyed = IsKeyed-nil }

enqueue-once : (c : Client) (e : Envelope) → IsValid c → Distinct (enqueue c e).order
unfolding enqueue
enqueue-once c e v = ground (arith, v.listed e.subject, Distinct-snoc e.subject c.order, v.once)

enqueue-listed :
    (c : Client) (e : Envelope)
    → IsValid c
    → (k : Bytes) → contains k (enqueue c e).order ≡ has k (enqueue c e).pending
unfolding enqueue
enqueue-listed c e v k = ground (
  arith,
  v.listed k,
  has-insert e.subject k e c.pending,
  contains-snoc k e.subject c.order,
  eq_iff e.subject k,
)

-- An update keeps the queue well formed.
pub enqueue-IsValid : (c : Client) (e : Envelope) → IsValid c → IsValid (enqueue c e)
enqueue-IsValid c e v = record {
  once = enqueue-once c e v;
  listed = enqueue-listed c e v;
  keyed = unfold enqueue in IsKeyed-insert e c.pending v.keyed;
}

pub take-IsValid : (c : Client) → IsValid (take c).1
unfolding take contains has
take-IsValid c = record { once = tt; listed = λ k. refl; keyed = IsKeyed-nil }

pub receive_notify-IsValid : (c : Client) → IsValid c → IsValid (receive_notify c)
unfolding receive_notify
receive_notify-IsValid c v = record { once = v.once; listed = v.listed; keyed = v.keyed }

pub enqueue_all-IsValid : (c : Client) (es : List Envelope) → IsValid c → IsValid (enqueue_all c es)
unfolding enqueue_all
enqueue_all-IsValid c [] v = v
enqueue_all-IsValid c (e ∷ es) v = enqueue_all-IsValid (enqueue c e) es (enqueue-IsValid c e v)

-- A queue whose subjects all stand in a map is no longer than the map.
pub length-order-le :
    (c : Client) (m : Map Bytes Envelope)
    → IsValid c
    → ((k : Bytes) → has k c.pending ≡ true → has k m ≡ true)
    → length c.order ≤ length m
length-order-le c m v h = length-le_of_has c.order m v.once λ k p. h k (ground (arith, v.listed k))
