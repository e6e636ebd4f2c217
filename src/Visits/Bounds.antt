-- ===== src/Visits/Bounds.antt =====
-- What anybody who can send URLs cannot exceed: the number and the length of the tracked URLs.
use pok.Kafka.{Message, Read, failed, message}
use pok.Prelude.Bytes.{Bytes, bytes_beq, bytes_key}
use pok.Prelude.Lists.{length, All, All-contains}
use pok.Prelude.Maps.{keys, contains-keys, has, index, insert, has-insert, length-insert}
use pok.Prelude.Tests.{eq_iff, if◌then◌else◌}
use pok.Prelude.{◌≤◌, ◌≡◌, refl, sym, ◌∙◌, true, false, List, [], ◌∷◌, arith}
use pok.Visits.{
  Moment, Counter, max_visit_urls, max_visit_url_len, is_url, has_room, increment, stamp,
  count_visit, announce, url_of, is_counted, step, run, new_counter,
}

module _ (url : Bytes) (at : Moment) (s : Counter) where
  pub counts-announce : (announce url at s).0.counts ≡ s.counts
  unfolding announce
  counts-announce = ground arith

  pub last-announce : (announce url at s).0.last ≡ s.last
  unfolding announce
  last-announce = ground arith

module _ (url_field : Bytes → Bytes) (m : Message) (at : Moment) (s : Counter) where
  pub counts-step : (step url_field m at s).0.counts ≡ (
      if is_counted url_field m s
      then insert (url_of url_field m) (increment (index 0 (url_of url_field m) s.counts)) s.counts
      else s.counts)
  unfolding step count_visit
  counts-step = ground (
    arith,
    counts-announce (url_of url_field m) at (count_visit (url_of url_field m) (stamp m at) s),
  )

  pub last-step : (step url_field m at s).0.last ≡ (
      if is_counted url_field m s then insert (url_of url_field m) (stamp m at) s.last else s.last)
  unfolding step count_visit
  last-step = ground (
    arith,
    last-announce (url_of url_field m) at (count_visit (url_of url_field m) (stamp m at) s),
  )

pub record IsBounded (s : Counter) : Type 0 where
  pub sized : length s.counts ≤ max_visit_urls
  pub urls : (u : Bytes) → has u s.counts ≡ true → is_url u ≡ true
  pub timed : (u : Bytes) → has u s.last ≡ has u s.counts

pub new_counter-IsBounded : IsBounded new_counter
unfolding has
new_counter-IsBounded = record { sized = omega arith; urls = λ u h. cc; timed = λ u. refl }

module _ (url_field : Bytes → Bytes) where
  step-sized :
      (m : Message) (at : Moment) (s : Counter)
      → IsBounded s
      → length (step url_field m at s).0.counts ≤ max_visit_urls
  step-sized m at s b = rw (counts-step url_field m at s) (
      unfold is_counted has_room in
      ground (
        arith,
        b.sized,
        length-insert (url_of url_field m) (increment (index 0 (url_of url_field m) s.counts))
            s.counts,
      ))

  step-urls :
      (m : Message) (at : Moment) (s : Counter) (u : Bytes)
      → IsBounded s
      → has u (step url_field m at s).0.counts ≡ true
      → is_url u ≡ true
  step-urls m at s u b = rw (counts-step url_field m at s) (
      unfold is_counted in
      λ h. ground (
        arith,
        h,
        b.urls u,
        eq_iff (url_of url_field m) u,
        has-insert (url_of url_field m) u (increment (index 0 (url_of url_field m) s.counts))
            s.counts,
      ))

  step-timed :
      (m : Message) (at : Moment) (s : Counter) (u : Bytes)
      → IsBounded s
      → has u (step url_field m at s).0.last ≡ has u (step url_field m at s).0.counts
  step-timed m at s u b =
      rw (counts-step url_field m at s, last-step url_field m at s)
        (ground (
          arith,
          b.timed u,
          has-insert (url_of url_field m) u (increment (index 0 (url_of url_field m) s.counts))
              s.counts,
          has-insert (url_of url_field m) u (stamp m at) s.last,
        ))

  pub step-IsBounded :
      (m : Message) (at : Moment) (s : Counter) → IsBounded s → IsBounded (step url_field m at s).0
  step-IsBounded m at s b = record {
    sized = step-sized m at s b;
    urls = λ u. step-urls m at s u b;
    timed = λ u. step-timed m at s u b;
  }

  pub run-IsBounded :
      (reads : List (Read Moment)) (s : Counter) → IsBounded s → IsBounded (run url_field reads s).0
  unfolding run
  run-IsBounded [] s b = b
  run-IsBounded (failed true ∷ reads) s b = b
  run-IsBounded (failed false ∷ reads) s b = run-IsBounded reads s b
  run-IsBounded (message m at ∷ reads) s b =
      run-IsBounded reads (step url_field m at s).0 (step-IsBounded m at s b)

  is_url_bounds : (u : Bytes) → is_url u ≡ true → (1 ≤ length u) × (length u ≤ max_visit_url_len)
  unfolding is_url bytes_beq
  is_url_bounds [] h = cc
  is_url_bounds (c ∷ u) h = ground arith

  -- Whatever is sent, at most 512 URLs are tracked, each of them between 1 and 256 bytes long, and
  -- a last time is kept for exactly the URLs that are counted.
  pub run-bounds :
      (reads : List (Read Moment))
      → let s = (run url_field reads new_counter).0 in
        (length s.counts ≤ 512)
        × All (λ u. (1 ≤ length u) × (length u ≤ 256)) (keys s.counts)
        × ((u : Bytes) → has u s.last ≡ has u s.counts)
  run-bounds reads =
      let b = run-IsBounded reads new_counter new_counter-IsBounded in
      let s = (run url_field reads new_counter).0 in
      (
        b.sized,
        All-contains (λ u. (1 ≤ length u) × (length u ≤ 256)) (keys s.counts)
            (λ u h. is_url_bounds u (b.urls u (sym (contains-keys u s.counts) ∙ h))),
        b.timed,
      )
