-- ===== src/Pipeline/Shown.antt =====
-- What the hub of wsfeed holds in the end of a page that helloworld serves.
use mathlib.Core.Path.{subst}
use pok.Feed.Client.{Envelope}
use pok.Feed.Consume.Latest.{last_message, consume_visit_counts-latest}
use pok.Feed.Consume.{visit_subject, envelope_of, consume_visit_counts}
use pok.Feed.Consume
use pok.Feed.Hub.{new_hub}
use pok.Kafka.{Read}
use pok.Pipeline.Logged.{HasSlash, requests, visits-logged, run-HasSlash}
use pok.Pipeline.Relayed.{IsHeld, Agrees-IsHeld, Delivers-AllRead, Delivers-Agrees, new_hub-state}
use pok.Kafka.Topics.{Delivers, last_keyed}
use pok.Pipeline.{Visit, logged}
use pok.Prelude.Bytes.{Bytes, bytes_key}
use pok.Prelude.Int.{ℤ, pos}
use pok.Prelude.Lists.{All, length}
use pok.Prelude.Maps.{has, index, lookup, has_of_lookup, has_of_missing, index_of_lookup}
use pok.Prelude.Tests.{eq_iff, eq_refl, if◌then◌else◌, Option-cases}
use pok.Prelude.{
  ℕ, ◌%◌, ◌^◌, ◌<◌, ◌≡◌, ◌⊎◌, refl, ap, inl, inr, ◌∙◌, Bool, true, false, Option, none, some, List,
  [], ◌∷◌, arith,
}
use pok.Visits.Counts.{visits, run-counts}
use pok.Visits.Replay.{AllRanged, run-published}
use pok.Visits.Shown.{last_count}
use pok.Visits.{Counter, Count, new_counter, publish, is_url, run}

-- Every URL for which something was written is one of which the last count is known.
All-last_count :
    (P : Bytes → Type 0) (cs : List Count)
    → ((u : Bytes) (c : Count) → last_count u cs ≡ some c → P u)
    → All (λ c. P c.url) cs
unfolding last_count
All-last_count P [] f = tt
All-last_count P (c ∷ cs) f = (
  elim (Option-cases (last_count c.url cs)) [
    | inl e ↦ f c.url c (ground (arith, eq_refl c.url))
    | inr (d, e) ↦ f c.url d (rw e)
  ],
  All-last_count P cs (λ u d e. f u d (rw e)),
)

last_count-last_keyed :
    (u : Bytes) (cs : List Count) → last_keyed (λ c. c.url) u cs ≡ last_count u cs
unfolding last_count last_keyed
last_count-last_keyed u [] = refl
last_count-last_keyed u (c ∷ cs) = rw (last_count-last_keyed u cs)

-- A page is shown with its number of requests, or is not shown at all.
abbrev pub IsShownAs : (Count → Bytes) → Bytes → ℕ → ℕ → Option Envelope → Type 0
IsShownAs encode u asked tracked held =
    ((e : Envelope) × (last : ℤ) × (held ≡ some e)
      × (e.payload ≡ encode (record { url = u; count = asked % 2 ^ 64; last = last })))
    ⊎ ((held ≡ none) × ((asked ≡ 0) ⊎ (tracked ≡ 512)))

module _ (valid : Bytes → Bool) (encode : Count → Bytes)
    (encodes : (c : Count) → valid (encode c) ≡ true) (event url_field : Bytes → Bytes)
    (served : List Visit) (slash : All (λ v. HasSlash v.path) served)
    (ranged : AllRanged url_field (logged event served) new_counter)
    (replayed : (run url_field (logged event served) new_counter).0.replaying ≡ false) where
  abbrev counter : Counter
  counter = (run url_field (logged event served) new_counter).0

  abbrev out : List Count
  out = (run url_field (logged event served) new_counter).1

  last_count-out :
      (u : Bytes)
      → last_count u out ≡ (if has u counter.counts then some (publish counter u) else none)
  last_count-out u =
      ground (arith, replayed, run-published url_field (logged event served) u ranged)

  none_tracked : (u : Bytes) → has u new_counter.counts ≡ true → HasSlash u
  unfolding has
  none_tracked u h = cc

  out-HasSlash : All (λ c. HasSlash c.url) out
  out-HasSlash = All-last_count HasSlash out (λ u c e.
      run-HasSlash event url_field served new_counter slash none_tracked u
        (ground (arith, e, last_count-out u)))

  consume_visit_counts-IsHeld :
      (path : Bytes) (reads : List (Read Consume.Moment)) (n : ℕ)
      → length path < 256
      → Delivers (λ c. c.url) encode out reads
      → IsHeld
          (λ (c : Count). c.url)
          encode
          (last_count (b'/' ∷ path) out)
          (lookup
            (visit_subject (b'/' ∷ path))
            (consume_visit_counts valid reads (new_hub n)).state)
  consume_visit_counts-IsHeld path reads n short d =
      rw
        (consume_visit_counts-latest valid path reads (new_hub n) short
          (Delivers-AllRead (λ (c : Count). c.url) encode HasSlash d out-HasSlash))
        (rw (new_hub-state (visit_subject (b'/' ∷ path)) n) (
          Agrees-IsHeld (λ (c : Count). c.url) encode (visit_subject (b'/' ∷ path))
            (last_count (b'/' ∷ path) out) (last_message valid (b'/' ∷ path) reads)
            (rw (← last_count-last_keyed (b'/' ∷ path) out)
              (Delivers-Agrees (λ (c : Count). c.url) encode valid encodes (b'/' ∷ path) d))))

  last_count_tracked :
      (u : Bytes) (k : ℕ)
      → lookup u counter.counts ≡ some k
      → last_count u out ≡ some (record { url = u; count = k; last = index (pos 0) u counter.last })
  last_count_tracked u k e =
      last_count-out u
      ∙ unfold publish in
        ground (arith, has_of_lookup u k counter.counts e, index_of_lookup 0 u counter.counts, e)

  last_count_untracked : (u : Bytes) → lookup u counter.counts ≡ none → last_count u out ≡ none
  last_count_untracked u e = ground (arith, last_count-out u, has_of_missing u counter.counts e)

  is_url_short : (path : Bytes) → length path < 256 → is_url (b'/' ∷ path) ≡ true
  unfolding is_url
  is_url_short path short = ground (arith, eq_iff (b'/' ∷ path) [])

  -- Let helloworld serve requests whose paths begin with a slash, let visitcounter read all their
  -- events until its replay is over, and let wsfeed, from an empty hub on, read what a compacted
  -- topic delivers of the counts written. Then for each path of at most 256 bytes the hub holds
  -- under the page's subject the number of requests for it, modulo 2^64; or it holds nothing, and
  -- then the page was never asked for, or visitcounter had given all its 512 slots to other pages.
  pub served-shown :
      (path : Bytes) (reads : List (Read Consume.Moment)) (n : ℕ)
      → length path < 256
      → Delivers (λ c. c.url) encode out reads
      → IsShownAs encode (b'/' ∷ path) (requests (b'/' ∷ path) served) (length counter.counts) (
          lookup (visit_subject (b'/' ∷ path)) (consume_visit_counts valid reads (new_hub n)).state)
  served-shown path reads n short d =
      let u : Bytes = b'/' ∷ path in
      let held : Option Envelope =
        lookup (visit_subject u) (consume_visit_counts valid reads (new_hub n)).state in
      let asked = visits-logged event url_field u served (omega arith) slash in
      elim (run-counts url_field (logged event served) u) [
        | inl k ↦
            let h =
              subst (λ o. IsHeld (λ (c : Count). c.url) encode o held)
                (last_count_tracked u (visits url_field u (logged event served) % 2 ^ 64) k)
                (consume_visit_counts-IsHeld path reads n short d) in
            inl (
              h.0,
              index (pos 0) u counter.last,
              h.1,
              h.2
                  ∙ ap
                      (λ (k : ℕ). encode (record {
                        url = u;
                        count = k % 2 ^ 64;
                        last = index (pos 0) u counter.last;
                      }))
                      asked,
            )
        | inr k ↦
            let h =
              subst (λ o. IsHeld (λ (c : Count). c.url) encode o held) (last_count_untracked u k.0)
                (consume_visit_counts-IsHeld path reads n short d) in
            inr (h, ground (arith, k.1, asked, is_url_short path short))
      ]
