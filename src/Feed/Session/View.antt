-- ===== src/Feed/Session/View.antt =====
-- The last envelope of each subject in what a snapshot, a `take` or a sequence of writes shows.
use pok.Feed.Client.Coalesce.{last_update, or_else, or_else-none}
use pok.Feed.Client.Valid
use pok.Feed.Client.{Envelope, Client, zero_envelope, take}
use pok.Feed.Hub.Valid.{IsValid}
use pok.Feed.Hub.{Hub, snapshot}
use pok.Prelude.Bytes.{Bytes, bytes_key}
use pok.Prelude.Lists.{contains}
use pok.Prelude.Maps.{
  Map, IsRange, lookup, has, index, range, lookup_present, lookup_missing, index_of_lookup,
}
use pok.Prelude.Tests.{eq_iff, eq_refl, Option-cases, if◌then◌else◌, nat_key}
use pok.Prelude.{◌≡◌, refl, sym, ◌∙◌, inl, inr, true, none, List, [], ◌∷◌, ◌++◌, map, arith}

pub last_update-append :
    (k : Bytes) (xs ys : List Envelope)
    → last_update k (xs ++ ys) ≡ or_else (last_update k ys) (last_update k xs)
unfolding last_update
last_update-append k [] ys = sym (or_else-none (last_update k ys))
last_update-append k (x ∷ xs) ys = ground (arith, last_update-append k xs ys)

-- The values of a range have the contents of the map, if they stand under their own subjects.
last_update-range :
    (k : Bytes) (order : List Bytes) (m : Map Bytes Envelope)
    → Valid.IsKeyed m
    → last_update k (map (λ entry. entry.1) (range order m))
      ≡ (if contains k order then lookup k m else none)
unfolding last_update range contains
last_update-range k [] m h = refl
last_update-range k (j ∷ order) m h = elim (Option-cases (lookup j m)) [
  | inl e ↦ ground (arith, e, eq_iff j k, last_update-range k order m h)
  | inr (x, e) ↦ ground (arith, e, eq_iff j k, h.at j x e, last_update-range k order m h)
]

pub last_update-snapshot :
    (k : Bytes) (order : List Bytes) (h : Hub)
    → IsValid h
    → IsRange (λ j. has j h.state) order
    → last_update k (snapshot order h) ≡ lookup k h.state
unfolding snapshot
last_update-snapshot k order h v r =
    ground (arith, r.all k, last_update-range k order h.state v.keyed, lookup_missing k h.state)

pub take-range :
    (order : List Bytes) (m : Map Bytes Envelope)
    → ((k : Bytes) → contains k order ≡ true → has k m ≡ true)
    → map (λ subj. index zero_envelope subj m) order ≡ map (λ entry. entry.1) (range order m)
unfolding contains range
take-range [] m h = refl
take-range (k ∷ order) m h =
    let (x, e) = lookup_present k m (h k (ground (arith, eq_refl k))) in
    ground
      (arith, e, index_of_lookup zero_envelope k m, take-range order m (λ j c. h j (ground arith)))

pub last_update-take :
    (k : Bytes) (c : Client) → Valid.IsValid c → last_update k (take c).0 ≡ lookup k c.pending
unfolding take
last_update-take k c v = ground (
  arith,
  take-range c.order c.pending (λ j m. sym (v.listed j) ∙ m),
  v.listed k,
  last_update-range k c.order c.pending v.keyed,
  lookup_missing k c.pending,
)
