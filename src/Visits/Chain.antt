-- ===== src/Visits/Chain.antt =====
-- The bounds of the three programs along the way of a visit: helloworld, visitcounter, wsfeed.
use pok.Feed.Consume.{envelope_of, visit_subject, visit_envelope}
use pok.Kafka.{Message}
use pok.Prelude.Bytes.{Bytes, bytes_key}
use pok.Prelude.Int.{ℤ}
use pok.Prelude.Lists.{length}
use pok.Prelude.Maps.{has}
use pok.Prelude.Tests.{eq_iff, Bool-cases, ltb}
use pok.Prelude.{◌≡◌, ◌≢◌, inl, inr, Bool, true, false, Option, none, some, [], arith}
use pok.Visits.Bounds.{IsBounded}
use pok.Visits.{Counter, publish_visit, max_visit_path_len, is_url, url_of}

abbrev pub IsCarried : (Bytes → Bytes) → Bytes → Option Message → Type 0
IsCarried url_field path none = is_url path ≡ false
IsCarried url_field path (some m) = (url_of url_field m ≡ path) × (is_url path ≡ true)

-- For a path that is not empty: if helloworld publishes the visit, visitcounter reads that path from
-- the message as its URL and finds it short enough, and if not, it would not have passed.
pub publish_visit-is_url :
    (event url_field : Bytes → Bytes) (path : Bytes) (now : ℤ)
    → path ≢ []
    → IsCarried url_field path (publish_visit event path now)
unfolding publish_visit is_url url_of
publish_visit-is_url event url_field path now ne =
    elim (Bool-cases (ltb max_visit_path_len (length path))) [
      | inl long ↦ rw long (ground arith)
      | inr short ↦ rw short (ground (arith, eq_iff path []))
    ]

-- A message under a tracked URL, with a JSON value, is relayed by wsfeed to that URL's subject.
pub visit_envelope-is_url :
    (valid : Bytes → Bool) (s : Counter) (m : Message) (now : ℤ)
    → IsBounded s
    → has m.key s.counts ≡ true
    → valid m.value ≡ true
    → visit_envelope valid m now ≡ some (envelope_of (visit_subject m.key) m now)
unfolding visit_envelope is_url
visit_envelope-is_url valid s m now b tracked json = ground (arith, b.urls m.key tracked)
