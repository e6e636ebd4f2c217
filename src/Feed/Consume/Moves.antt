-- ===== src/Feed/Consume/Moves.antt =====
-- What a consumer does to the hub is a history of the hub's own calls, and puts only JSON in it.
use pok.Feed.Client.{Envelope}
use pok.Feed.Consume.{
  Moment, cluster_envelope, visit_envelope, relay, consume, consume_cluster_info,
  consume_visit_counts,
}
use pok.Feed.Hub.Steps
use pok.Feed.Hub.Steps.{publishes, act}
use pok.Feed.Hub.{Hub, new_hub, publish}
use pok.Feed.Session.Json.{IsJson, HoldsJson, HoldsJson-publish}
use pok.Kafka.{Message, Read, failed, message}
use pok.Prelude.Bytes.{Bytes, bytes_key}
use pok.Prelude.Int.{ℤ}
use pok.Prelude.Lists.{contains, length}
use pok.Prelude.Maps.{IsRange, lookup}
use pok.Prelude.Tests.{nat_key, Option-cases}
use pok.Prelude.{
  ℕ, suc, ◌<◌, ◌≡◌, refl, Bool, true, false, Option, none, some, List, [], ◌∷◌, inl, inr, arith,
}

-- While the hub has these clients, `publish` visits each of them once.
abbrev pub RangesOver : List ℕ → List (Read Moment) → Type 0
RangesOver clients [] = Unit
RangesOver clients (failed true ∷ reads) = Unit
RangesOver clients (failed false ∷ reads) = RangesOver clients reads
RangesOver clients (message m at ∷ reads) =
    IsRange (λ p. contains p clients) at.order × RangesOver clients reads

-- A hub that its calls made of an empty one, which holds only JSON and has room for a session.
pub record IsFed (valid : Bytes → Bool) (n : ℕ) (h : Hub) : Type 0 where
  pub reached : Steps.Reach (new_hub n) h
  pub json : HoldsJson valid h.state
  pub room : length h.clients < h.max_clients

new_hub-HoldsJson : (valid : Bytes → Bool) (n : ℕ) → HoldsJson valid (new_hub n).state
unfolding new_hub lookup
new_hub-HoldsJson valid n = record { at = λ k e p. cc }

module _ (valid : Bytes → Bool) (handle : Message → ℤ → Option Envelope)
    (json : (m : Message) (now : ℤ) (e : Envelope) → handle m now ≡ some e → IsJson valid e) where
  clients-relay :
      (o : Option Envelope) (order : List ℕ) (h : Hub) → (relay o order h).clients ≡ h.clients
  unfolding relay publish
  clients-relay none order h = refl
  clients-relay (some e) order h = refl

  clients-consume :
      (reads : List (Read Moment)) (h : Hub) → (consume handle reads h).clients ≡ h.clients
  unfolding consume
  clients-consume [] h = refl
  clients-consume (failed true ∷ reads) h = refl
  clients-consume (failed false ∷ reads) h = clients-consume reads h
  clients-consume (message m at ∷ reads) h = ground (
    arith,
    clients-consume reads (relay (handle m at.now) at.order h),
    clients-relay (handle m at.now) at.order h,
  )

  max_clients-relay :
      (o : Option Envelope) (order : List ℕ) (h : Hub)
      → (relay o order h).max_clients ≡ h.max_clients
  unfolding relay publish
  max_clients-relay none order h = refl
  max_clients-relay (some e) order h = refl

  max_clients-consume :
      (reads : List (Read Moment)) (h : Hub) → (consume handle reads h).max_clients ≡ h.max_clients
  unfolding consume
  max_clients-consume [] h = refl
  max_clients-consume (failed true ∷ reads) h = refl
  max_clients-consume (failed false ∷ reads) h = max_clients-consume reads h
  max_clients-consume (message m at ∷ reads) h = ground (
    arith,
    max_clients-consume reads (relay (handle m at.now) at.order h),
    max_clients-relay (handle m at.now) at.order h,
  )

  act_publishes :
      (order : List ℕ) (e : Envelope) (h : Hub)
      → act (publishes order e) h ≡ some (publish order e h)
  unfolding act
  act_publishes order e h = refl

  relay-Reach :
      (o : Option Envelope) (order : List ℕ) (g h : Hub)
      → Steps.Reach g h
      → IsRange (λ p. contains p h.clients) order
      → Steps.Reach g (relay o order h)
  unfolding relay
  relay-Reach none order g h r a = r
  relay-Reach (some e) order g h r a =
      Steps.Reach.next (publishes order e) r a (act_publishes order e h)

  consume-Reach :
      (reads : List (Read Moment)) (g h : Hub)
      → Steps.Reach g h
      → RangesOver h.clients reads
      → Steps.Reach g (consume handle reads h)
  unfolding consume
  consume-Reach [] g h r a = r
  consume-Reach (failed true ∷ reads) g h r a = r
  consume-Reach (failed false ∷ reads) g h r a = consume-Reach reads g h r a
  consume-Reach (message m at ∷ reads) g h r a =
      consume-Reach reads g (relay (handle m at.now) at.order h)
        (relay-Reach (handle m at.now) at.order g h r a.0)
        (rw (clients-relay (handle m at.now) at.order h) a.1)

  relay-HoldsJson :
      (m : Message) (now : ℤ) (order : List ℕ) (h : Hub)
      → HoldsJson valid h.state
      → HoldsJson valid (relay (handle m now) order h).state
  unfolding relay
  relay-HoldsJson m now order h s = elim (Option-cases (handle m now)) [
    | inl e ↦ rw (e, relay) s
    | inr (x, e) ↦ rw (e, relay) (HoldsJson-publish valid order x h (json m now x e) s)
  ]

  consume-HoldsJson :
      (reads : List (Read Moment)) (h : Hub)
      → HoldsJson valid h.state
      → HoldsJson valid (consume handle reads h).state
  unfolding consume
  consume-HoldsJson [] h s = s
  consume-HoldsJson (failed true ∷ reads) h s = s
  consume-HoldsJson (failed false ∷ reads) h s = consume-HoldsJson reads h s
  consume-HoldsJson (message m at ∷ reads) h s =
      consume-HoldsJson reads (relay (handle m at.now) at.order h)
        (relay-HoldsJson m at.now at.order h s)

  -- From an empty hub on, before the first session.
  consume-IsFed :
      (reads : List (Read Moment)) (n : ℕ)
      → RangesOver [] reads
      → IsFed valid (suc n) (consume handle reads (new_hub (suc n)))
  consume-IsFed reads n orders = record {
    reached =
        consume-Reach reads (new_hub (suc n)) (new_hub (suc n)) Steps.Reach.here
          (unfold new_hub in orders);
    json = consume-HoldsJson reads (new_hub (suc n)) (new_hub-HoldsJson valid (suc n));
    room =
        rw (clients-consume reads (new_hub (suc n)), max_clients-consume reads (new_hub (suc n)))
          (unfold new_hub in omega arith);
  }

module _ (valid : Bytes → Bool) where
  visit_envelope-IsJson :
      (m : Message) (now : ℤ) (e : Envelope) → visit_envelope valid m now ≡ some e → IsJson valid e
  unfolding visit_envelope
  visit_envelope-IsJson m now e h = ground (arith, h)

  cluster_envelope-IsJson :
      (m : Message) (now : ℤ) (e : Envelope)
      → cluster_envelope valid m now ≡ some e
      → IsJson valid e
  unfolding cluster_envelope
  cluster_envelope-IsJson m now e h = ground (arith, h)

  pub consume_visit_counts-IsFed :
      (reads : List (Read Moment)) (n : ℕ)
      → RangesOver [] reads
      → IsFed valid (suc n) (consume_visit_counts valid reads (new_hub (suc n)))
  unfolding consume_visit_counts
  consume_visit_counts-IsFed = consume-IsFed valid (visit_envelope valid) visit_envelope-IsJson

  pub consume_cluster_info-IsFed :
      (reads : List (Read Moment)) (n : ℕ)
      → RangesOver [] reads
      → IsFed valid (suc n) (consume_cluster_info valid reads (new_hub (suc n)))
  unfolding consume_cluster_info
  consume_cluster_info-IsFed = consume-IsFed valid (cluster_envelope valid) cluster_envelope-IsJson
