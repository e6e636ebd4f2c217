-- ===== src/Feed/Client/Coalesce.antt =====
-- What `take` hands out after any updates, against a description that does not know the queue:
-- the subjects in the order of their first update, each with its last one.
use mathlib.Core.List.{append-nil, append_assoc}
use pok.Feed.Client.{Envelope, Client, zero_envelope, new_client, enqueue, take, enqueue_all}
use pok.Feed.Client.Valid.{IsValid, new_client-IsValid, enqueue_all-IsValid}
use pok.Prelude.Bytes.{Bytes, bytes_key}
use pok.Prelude.Lists.{contains, contains-snoc}
use pok.Prelude.Maps.{
  lookup, has, index, lookup-insert, has-insert, lookup_present, index_of_lookup,
}
use pok.Prelude.Tests.{◌==◌, eq_iff, eq_refl, Bool-cases, if◌then◌else◌}
use pok.Prelude.{
  ◌≡◌, refl, sym, ap, ◌∙◌, inl, inr, true, false, Option, none, some, List, [], ◌∷◌, ◌++◌, map,
  arith,
}

-- The last update of a subject.
unfoldable pub last_update : Bytes → List Envelope → Option Envelope
last_update k [] = none
last_update k (e ∷ es) = elim (last_update k es) [
  | some x ↦ some x
  | none ↦ if e.subject == k then some e else none
]

-- The subjects of the updates in the order of their first arrival, but for those seen before.
unfoldable pub arrivals : List Bytes → List Envelope → List Bytes
arrivals seen [] = []
arrivals seen (e ∷ es) =
    let known = arrivals seen es in
    let fresh = e.subject ∷ arrivals (seen ++ e.subject ∷ []) es in
    if contains e.subject seen then known else fresh

abbrev pub or_else : Option Envelope → Option Envelope → Option Envelope
or_else none b = b
or_else (some a) b = some a

pub or_else-none : (a : Option Envelope) → or_else a none ≡ a
or_else-none none = refl
or_else-none (some a) = refl

pub lookup-enqueue_all :
    (k : Bytes) (c : Client) (es : List Envelope)
    → lookup k (enqueue_all c es).pending ≡ or_else (last_update k es) (lookup k c.pending)
unfolding enqueue_all last_update
lookup-enqueue_all k c [] = refl
lookup-enqueue_all k c (e ∷ es) =
    lookup-enqueue_all k (enqueue c e) es
    ∙ unfold enqueue in ground (arith, lookup-insert e.subject k e c.pending)

order_known :
    (c : Client) (e : Envelope) → has e.subject c.pending ≡ true → (enqueue c e).order ≡ c.order
unfolding enqueue
order_known c e h = ground arith

order_fresh :
    (c : Client) (e : Envelope)
    → has e.subject c.pending ≡ false
    → (enqueue c e).order ≡ c.order ++ e.subject ∷ []
unfolding enqueue
order_fresh c e h = ground arith

order-enqueue_all :
    (c : Client) (seen : List Bytes) (es : List Envelope)
    → ((k : Bytes) → contains k seen ≡ has k c.pending)
    → (enqueue_all c es).order ≡ c.order ++ arrivals seen es
unfolding enqueue_all arrivals
order-enqueue_all c seen [] h = sym (append-nil c.order)
order-enqueue_all c seen (e ∷ es) h = elim (Bool-cases (contains e.subject seen)) [
  | inl old ↦ rw old (
      order-enqueue_all (enqueue c e) seen es (λ k.
        unfold enqueue in
        ground (arith, h k, has-insert e.subject k e c.pending, eq_iff e.subject k))
      ∙ ap (λ o. o ++ arrivals seen es) (order_known c e (ground (arith, h e.subject))))
  | inr new ↦ rw new (
      order-enqueue_all (enqueue c e) (seen ++ e.subject ∷ []) es (λ k.
        unfold enqueue in
        ground (arith, h k, has-insert e.subject k e c.pending, contains-snoc k e.subject seen))
      ∙ ap (λ o. o ++ arrivals (seen ++ e.subject ∷ []) es)
          (order_fresh c e (ground (arith, h e.subject)))
      ∙ append_assoc c.order (e.subject ∷ []) _)
]

-- The last updates of the listed subjects.
unfoldable pub pick : List Bytes → List Envelope → List Envelope
unfolding last_update
pick [] es = []
pick (k ∷ ks) es =
    let rest = pick ks es in elim (last_update k es) [ none ↦ rest | some e ↦ e ∷ rest ]

-- One envelope for each subject updated: its last, in the order of the first arrivals.
unfoldable pub coalesced : List Envelope → List Envelope
unfolding arrivals pick
coalesced es = pick (arrivals [] es) es

map-index-eq-pick :
    (ks : List Bytes) (c : Client) (es : List Envelope)
    → ((k : Bytes) → lookup k c.pending ≡ last_update k es)
    → ((k : Bytes) → contains k ks ≡ true → has k c.pending ≡ true)
    → map (λ k. index zero_envelope k c.pending) ks ≡ pick ks es
unfolding pick contains
map-index-eq-pick [] c es same listed = refl
map-index-eq-pick (k ∷ ks) c es same listed =
    let (x, e) = lookup_present k c.pending (listed k (ground (arith, eq_refl k))) in
    ground (
      arith,
      e,
      same k,
      index_of_lookup zero_envelope k c.pending,
      map-index-eq-pick ks c es same (λ j h. listed j (ground arith)),
    )

lookup-enqueue_all_new :
    (es : List Envelope) (k : Bytes)
    → lookup k (enqueue_all new_client es).pending ≡ last_update k es
lookup-enqueue_all_new es k =
    lookup-enqueue_all k new_client es ∙ unfold new_client lookup in or_else-none (last_update k es)

order-enqueue_all_new : (es : List Envelope) → (enqueue_all new_client es).order ≡ arrivals [] es
order-enqueue_all_new es =
    order-enqueue_all new_client [] es (λ k. unfold new_client contains has in refl)
    ∙ unfold new_client in refl

-- After any updates to a new queue, `take` hands out one envelope for each subject updated, the
-- last of its updates, in the order of the subjects' first arrivals, and a second `take` nothing.
pub take-enqueue_all :
    (es : List Envelope)
    → let (out, c) = take (enqueue_all new_client es) in (out ≡ coalesced es) × ((take c).0 ≡ [])
unfolding take coalesced
take-enqueue_all es = (
  map-index-eq-pick (enqueue_all new_client es).order (enqueue_all new_client es) es
        (lookup-enqueue_all_new es) (λ k h. sym (v.listed k) ∙ h)
      ∙ ap (λ ks. pick ks es) (order-enqueue_all_new es),
  refl,
)
  where
    v : IsValid (enqueue_all new_client es)
    v = enqueue_all-IsValid new_client es new_client-IsValid
