-- ===== src/Pipeline/Logged.antt =====
-- What reaches visitcounter of the requests that helloworld serves.
use pok.Kafka.{Message, Read, message}
use pok.Pipeline.{Visit, logged}
use pok.Prelude.Bytes.{Bytes, bytes_key}
use pok.Prelude.Lists.{All, length, head_or}
use pok.Prelude.Maps.{has, index, has-insert}
use pok.Prelude.Tests.{◌==◌, eq_iff, Bool-cases, if◌then◌else◌, ltb}
use pok.Prelude.{ℕ, ◌+◌, ◌≤◌, ◌≡◌, ◌≢◌, refl, inl, inr, true, false, List, [], ◌∷◌, arith}
use pok.Visits.Bounds.{counts-step}
use pok.Visits.Counts.{visits}
use pok.Visits.{Moment, Counter, max_visit_path_len, publish_visit, increment, url_of, step, run}

-- The requests for a path.
unfoldable pub requests : Bytes → List Visit → ℕ
requests u [] = 0
requests u (v ∷ served) = (if v.path == u then 1 else 0) + requests u served

abbrev pub HasSlash : Bytes → Type 0
HasSlash path = head_or 0 path ≡ b'/'

HasSlash-ne-nil : (path : Bytes) → HasSlash path → path ≢ []
HasSlash-ne-nil [] h = absurd (omega arith)
HasSlash-ne-nil (c ∷ cs) h = λ p. cc

module _ (event url_field : Bytes → Bytes) where
  url_of_path :
      (v : Visit)
      → HasSlash v.path
      → url_of url_field (record { key = v.path; value = event v.path; time = v.served }) ≡ v.path
  unfolding url_of
  url_of_path v slash = ground (arith, eq_iff v.path [], HasSlash-ne-nil v.path slash)

  logged_long :
      (v : Visit) (served : List Visit)
      → ltb max_visit_path_len (length v.path) ≡ true
      → logged event (v ∷ served) ≡ logged event served
  unfolding logged publish_visit
  logged_long v served long = rw (long, logged, publish_visit)

  logged_short :
      (v : Visit) (served : List Visit)
      → ltb max_visit_path_len (length v.path) ≡ false
      → logged event (v ∷ served)
        ≡ message (record { key = v.path; value = event v.path; time = v.served }) v.read_at
          ∷ logged event served
  unfolding logged publish_visit
  logged_short v served short = rw (short, logged, publish_visit)

  -- visitcounter reads as many visits of a path as were served, unless it is too long.
  pub visits-logged :
      (u : Bytes) (served : List Visit)
      → length u ≤ max_visit_path_len
      → All (λ v. HasSlash v.path) served
      → visits url_field u (logged event served) ≡ requests u served
  unfolding visits requests
  visits-logged u [] fits slash = unfold logged in refl
  visits-logged u (v ∷ served) fits slash =
      elim (Bool-cases (ltb max_visit_path_len (length v.path))) [
        | inl long ↦
            rw (logged_long v served long)
              (ground (arith, eq_iff v.path u, visits-logged u served fits slash.1))
        | inr short ↦
            rw (logged_short v served short)
              (ground (arith, url_of_path v slash.0, visits-logged u served fits slash.1))
      ]

  step-HasSlash :
      (v : Visit) (s : Counter)
      → HasSlash v.path
      → ((u : Bytes) → has u s.counts ≡ true → HasSlash u)
      → (u : Bytes)
      → has u
          (step url_field
            (record { key = v.path; value = event v.path; time = v.served })
            v.read_at
            s).0.counts
        ≡ true
      → HasSlash u
  step-HasSlash v s slash old u =
      let m : Message = record { key = v.path; value = event v.path; time = v.served } in
      rw (counts-step url_field m v.read_at s) (λ h. ground (
        arith,
        h,
        old u,
        url_of_path v slash,
        eq_iff v.path u,
        has-insert (url_of url_field m) u (increment (index 0 (url_of url_field m) s.counts))
            s.counts,
      ))

  run_message :
      (m : Message) (at : Moment) (reads : List (Read Moment)) (s : Counter)
      → (run url_field (message m at ∷ reads) s).0
        ≡ (run url_field reads (step url_field m at s).0).0
  unfolding run
  run_message m at reads s = refl

  -- visitcounter tracks only paths that were served.
  pub run-HasSlash :
      (served : List Visit) (s : Counter)
      → All (λ v. HasSlash v.path) served
      → ((u : Bytes) → has u s.counts ≡ true → HasSlash u)
      → (u : Bytes) → has u (run url_field (logged event served) s).0.counts ≡ true
      → HasSlash u
  run-HasSlash [] s slash old = unfold logged run in old
  run-HasSlash (v ∷ served) s slash old =
      elim (Bool-cases (ltb max_visit_path_len (length v.path))) [
        | inl long ↦ rw (logged_long v served long) (run-HasSlash served s slash.1 old)
        | inr short ↦ rw (logged_short v served short) (
            rw
              (run_message (record { key = v.path; value = event v.path; time = v.served })
                v.read_at (logged event served) s)
              (run-HasSlash served
                (step url_field (record { key = v.path; value = event v.path; time = v.served })
                  v.read_at s).0
                slash.1 (step-HasSlash v s slash.0 old)))
      ]
