-- ===== src/Visits/Counts.antt =====
-- The counts, against the number of visits among all the messages read.
use pok.Kafka.{Message, Read, failed, message}
use pok.Prelude.Bytes.{Bytes, bytes_key}
use pok.Prelude.Lists.{length}
use pok.Prelude.Maps.{
  has, index, lookup, lookup-insert, has-insert, length-insert, index_of_lookup, has_of_lookup,
  lookup_missing, lookup_present, has_of_missing,
}
use pok.Prelude.Tests.{◌==◌, eq_iff, Bool-cases, Option-cases, if◌then◌else◌}
use pok.Prelude.{
  ℕ, ◌+◌, ◌%◌, ◌^◌, ◌≤◌, ◌≡◌, ◌⊎◌, inl, inr, refl, true, false, ◌∙◌, ap, none, some, List, [], ◌∷◌,
  arith,
}
use pok.Visits.Bounds.{counts-step, IsBounded, step-IsBounded, run-IsBounded, new_counter-IsBounded}
use pok.Visits.{
  Moment, Counter, max_visit_urls, is_url, has_room, increment, url_of, is_counted, step, run,
  new_counter,
}

module _ (url_field : Bytes → Bytes) where
  -- The messages read for a URL, whether they were counted or not.
  unfoldable pub visits : Bytes → List (Read Moment) → ℕ
  visits u [] = 0
  visits u (failed true ∷ reads) = 0
  visits u (failed false ∷ reads) = visits u reads
  visits u (message m at ∷ reads) = (if url_of url_field m == u then 1 else 0) + visits u reads

-- `seen` visits of each URL make up the counts: a tracked URL missed none, and a URL that is not
-- tracked was not visited or came too late for a slot.
pub record Tallies (seen : Bytes → ℕ) (s : Counter) : Type 0 where
  pub known : (u : Bytes) (n : ℕ) → lookup u s.counts ≡ some n → n ≡ seen u % 2 ^ 64
  pub unknown :
      (u : Bytes)
      → is_url u ≡ true
      → has u s.counts ≡ false
      → (seen u ≡ 0) ⊎ (max_visit_urls ≤ length s.counts)

Tallies-same :
    (seen total : Bytes → ℕ) (s : Counter)
    → Tallies seen s
    → ((u : Bytes) → total u ≡ seen u + 0)
    → Tallies total s
Tallies-same seen total s t same = record {
  known = λ u n h. ground (arith, same u, t.known u n h);
  unknown = λ u v h. ground (arith, same u, t.unknown u v h);
}

index_known :
    (seen : Bytes → ℕ) (s : Counter) (u : Bytes)
    → Tallies seen s
    → is_url u ≡ true
    → has_room u s ≡ true
    → index 0 u s.counts ≡ seen u % 2 ^ 64
unfolding has_room
index_known seen s u t valid room = elim (Bool-cases (has u s.counts)) [
  | inl old ↦
      let (n, e) = lookup_present u s.counts old in
      ground (arith, e, t.known u n e, index_of_lookup 0 u s.counts)
  | inr new ↦
      ground
        (arith, index_of_lookup 0 u s.counts, lookup_missing u s.counts new, t.unknown u valid new)
]

module _ (url_field : Bytes → Bytes) (m : Message) (at : Moment) (seen total : Bytes → ℕ)
    (s : Counter) (b : IsBounded s) (t : Tallies seen s)
    (adds : (u : Bytes) → total u ≡ seen u + (if url_of url_field m == u then 1 else 0)) where
  step-known :
      (u : Bytes) (n : ℕ)
      → lookup u (step url_field m at s).0.counts ≡ some n
      → n ≡ total u % 2 ^ 64
  step-known u n = rw (counts-step url_field m at s) (
      unfold is_counted has_room increment in
      λ h. ground (
        arith,
        h,
        adds u,
        t.known u n,
        b.urls u,
        has_of_lookup u n s.counts,
        eq_iff (url_of url_field m) u,
        index_known seen s (url_of url_field m) t,
        lookup-insert (url_of url_field m) u (increment (index 0 (url_of url_field m) s.counts))
            s.counts,
      ))

  step-unknown :
      (u : Bytes)
      → is_url u ≡ true
      → has u (step url_field m at s).0.counts ≡ false
      → (total u ≡ 0) ⊎ (max_visit_urls ≤ length (step url_field m at s).0.counts)
  step-unknown u valid = rw (counts-step url_field m at s) (
      unfold is_counted has_room in
      λ h. ground (
        arith,
        h,
        adds u,
        t.unknown u valid,
        eq_iff (url_of url_field m) u,
        has-insert (url_of url_field m) u (increment (index 0 (url_of url_field m) s.counts))
            s.counts,
        length-insert (url_of url_field m) (increment (index 0 (url_of url_field m) s.counts))
            s.counts,
      ))

module _ (url_field : Bytes → Bytes) where
  run-Tallies :
      (reads : List (Read Moment)) (seen total : Bytes → ℕ) (s : Counter)
      → IsBounded s
      → Tallies seen s
      → ((u : Bytes) → total u ≡ seen u + visits url_field u reads)
      → Tallies total (run url_field reads s).0
  unfolding run visits
  run-Tallies [] seen total s b t adds = Tallies-same seen total s t adds
  run-Tallies (failed true ∷ reads) seen total s b t adds = Tallies-same seen total s t adds
  run-Tallies (failed false ∷ reads) seen total s b t adds = run-Tallies reads seen total s b t adds
  run-Tallies (message m at ∷ reads) seen total s b t adds =
      run-Tallies reads (λ u. seen u + (if url_of url_field m == u then 1 else 0)) total
        (step url_field m at s).0 (step-IsBounded url_field m at s b)
        (record {
          known = step-known url_field m at seen _ s b t (λ u. refl);
          unknown = step-unknown url_field m at seen _ s b t (λ u. refl);
        })
        (λ u. omega (arith, adds u))

  new_counter-Tallies : Tallies (λ u. 0) new_counter
  unfolding lookup
  new_counter-Tallies = record { known = λ u n h. cc; unknown = λ u v h. inl refl }

  -- After any reads, either a URL is tracked, and its count is the number of all messages read for
  -- it, up to the wrap-around of int64; or it is not, and then it was never read, or the 512 slots
  -- are all taken, or it is empty or longer than 256 bytes.
  pub run-counts :
      (reads : List (Read Moment)) (u : Bytes)
      → let s = (run url_field reads new_counter).0 in
        (lookup u s.counts ≡ some (visits url_field u reads % 2 ^ 64))
        ⊎ ((lookup u s.counts ≡ none)
            × ((visits url_field u reads ≡ 0) ⊎ ((length s.counts ≡ 512) ⊎ (is_url u ≡ false))))
  run-counts reads u =
      let t =
        run-Tallies reads (λ v. 0) (λ v. visits url_field v reads) new_counter new_counter-IsBounded
          new_counter-Tallies (λ v. omega arith) in
      let b = run-IsBounded url_field reads new_counter new_counter-IsBounded in
      let s = (run url_field reads new_counter).0 in
      elim (Option-cases (lookup u s.counts)) [
        | inr (n, h) ↦ inl (h ∙ ap some (t.known u n h))
        | inl h ↦ inr (
          h,
          elim (Bool-cases (is_url u)) [
            | inr invalid ↦ inr (inr invalid)
            | inl valid ↦ ground (arith, t.unknown u valid (has_of_missing u s.counts h), b.sized)
          ],
        )
      ]
