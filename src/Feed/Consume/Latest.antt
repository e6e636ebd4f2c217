-- ===== src/Feed/Consume/Latest.antt =====
-- The hub's state after a consumer's run, told by the messages alone.
use pok.Feed.Client.{Envelope}
use pok.Feed.Consume.Subjects.{cluster_subject-injective, visit_subject-injective}
use pok.Feed.Consume.{
  Moment, max_visit_url_len, cluster_subject, visit_subject, envelope_of, cluster_envelope,
  visit_envelope, relay, consume, consume_cluster_info, consume_visit_counts,
}
use pok.Feed.Hub.{Hub, publish}
use pok.Kafka.{Message, Read, failed, message}
use pok.Prelude.Bytes.{Bytes, bytes, bytes_key}
use pok.Prelude.Int.{ℤ}
use pok.Prelude.Lists.{length, head_or}
use pok.Prelude.Maps.{lookup, lookup-insert}
use pok.Prelude.Tests.{◌==◌, eq_iff, if◌then◌else◌}
use pok.Prelude.{
  ℕ, ◌<◌, ◌≡◌, ◌≢◌, ◌↔◌, refl, ap, Bool, true, false, ◌&&◌, Option, none, some, List, [], ◌∷◌,
  arith,
}

module _ (valid : Bytes → Bool) where
  -- The last message with this key and a JSON value that the consumer reads, and its moment.
  unfoldable pub last_message : Bytes → List (Read Moment) → Option (Message × ℤ)
  last_message key [] = none
  last_message key (failed true ∷ reads) = none
  last_message key (failed false ∷ reads) = last_message key reads
  last_message key (message m at ∷ reads) = elim (last_message key reads) [
    | some x ↦ some x
    | none ↦ if m.key == key && valid m.value then some (m, at.now) else none
  ]

-- The envelope of a message if there is one, or else what the hub had.
abbrev pub relayed : Bytes → Option (Message × ℤ) → Option Envelope → Option Envelope
relayed subj none before = before
relayed subj (some (m, now)) before = some (envelope_of subj m now)

-- The envelope for the subject, if it is one for this subject.
abbrev hit : Bytes → Option Envelope → Option Envelope
hit subj none = none
hit subj (some e) = if e.subject == subj then some e else none

abbrev over : Option Envelope → Option Envelope → Option Envelope
over none before = before
over (some e) before = some e

lookup-relay :
    (subj : Bytes) (o : Option Envelope) (order : List ℕ) (h : Hub)
    → lookup subj (relay o order h).state ≡ over (hit subj o) (lookup subj h.state)
unfolding relay publish
lookup-relay subj none order h = refl
lookup-relay subj (some e) order h = ground (arith, lookup-insert e.subject subj e h.state)

-- Every message that the consumer reads satisfies `P`.
abbrev pub AllRead : (Message → Type 0) → List (Read Moment) → Type 0
AllRead P [] = Unit
AllRead P (failed true ∷ reads) = Unit
AllRead P (failed false ∷ reads) = AllRead P reads
AllRead P (message m at ∷ reads) = P m × AllRead P reads

all_read : (reads : List (Read Moment)) → AllRead (λ m. Unit) reads
all_read [] = tt
all_read (failed true ∷ reads) = tt
all_read (failed false ∷ reads) = all_read reads
all_read (message m at ∷ reads) = (tt, all_read reads)

module _ (valid : Bytes → Bool) (handle : Message → ℤ → Option Envelope) (key subj : Bytes)
    (P : Message → Type 0)
    (fits : (m : Message) (now : ℤ)
      → P m
      → hit subj (handle m now)
        ≡ (if m.key == key && valid m.value then some (envelope_of subj m now) else none)) where
  consume-latest :
      (reads : List (Read Moment)) (h : Hub)
      → AllRead P reads
      → lookup subj (consume handle reads h).state
        ≡ relayed subj (last_message valid key reads) (lookup subj h.state)
  unfolding consume last_message
  consume-latest [] h all = refl
  consume-latest (failed true ∷ reads) h all = refl
  consume-latest (failed false ∷ reads) h all = consume-latest reads h all
  consume-latest (message m at ∷ reads) h all = ground (
    arith,
    consume-latest reads (relay (handle m at.now) at.order h) all.1,
    lookup-relay subj (handle m at.now) at.order h,
    fits m at.now all.0,
  )

visit_subject_iff :
    (key path : Bytes)
    → head_or 0 key ≡ b'/'
    → (visit_subject key ≡ visit_subject (b'/' ∷ path)) ↔ (key ≡ b'/' ∷ path)
visit_subject_iff [] path slash = absurd (omega arith)
visit_subject_iff (c ∷ q) path slash =
    rw slash (λ p. ap (◌∷◌ b'/') ((visit_subject-injective q path).0 p), λ p. ap visit_subject p)

module _ (valid : Bytes → Bool) where
  fits_cluster :
      (aspect : Bytes) (m : Message) (now : ℤ)
      → aspect ≢ []
      → aspect ≢ bytes "unknown"
      → hit (cluster_subject aspect) (cluster_envelope valid m now) ≡ (
          if m.key == aspect && valid m.value
          then some (envelope_of (cluster_subject aspect) m now)
          else none)
  unfolding cluster_envelope
  fits_cluster aspect m now ne nu = ground (
    arith,
    eq_iff (cluster_subject m.key) (cluster_subject aspect),
    eq_iff m.key aspect,
    cluster_subject-injective aspect m.key ne nu,
  )

  fits_visit :
      (path : Bytes) (m : Message) (now : ℤ)
      → length path < max_visit_url_len
      → head_or 0 m.key ≡ b'/'
      → hit (visit_subject (b'/' ∷ path)) (visit_envelope valid m now) ≡ (
          if m.key == b'/' ∷ path && valid m.value
          then some (envelope_of (visit_subject (b'/' ∷ path)) m now)
          else none)
  unfolding visit_envelope
  fits_visit path m now short slash = ground (
    arith,
    eq_iff (visit_subject m.key) (visit_subject (b'/' ∷ path)),
    eq_iff m.key (b'/' ∷ path),
    eq_iff m.key [],
    visit_subject_iff m.key path slash,
  )

  -- For each aspect with a name of its own, the hub holds the last message with that key and a JSON
  -- value, whole, under the aspect's subject, or what it held before if there is none.
  pub consume_cluster_info-latest :
      (aspect : Bytes) (reads : List (Read Moment)) (h : Hub)
      → aspect ≢ []
      → aspect ≢ bytes "unknown"
      → lookup (cluster_subject aspect) (consume_cluster_info valid reads h).state
        ≡ relayed
            (cluster_subject aspect)
            (last_message valid aspect reads)
            (lookup (cluster_subject aspect) h.state)
  unfolding consume_cluster_info
  consume_cluster_info-latest aspect reads h ne nu =
      consume-latest valid (cluster_envelope valid) aspect (cluster_subject aspect) (λ m. Unit)
        (λ m now _. fits_cluster aspect m now ne nu) reads h (all_read reads)

  -- For each URL of at most 256 bytes that begins with a slash, if all the URLs read begin with a
  -- slash, the hub holds the last message with that key and a JSON value, or what it held before if
  -- there is none.
  pub consume_visit_counts-latest :
      (path : Bytes) (reads : List (Read Moment)) (h : Hub)
      → length path < max_visit_url_len
      → AllRead (λ m. head_or 0 m.key ≡ b'/') reads
      → lookup (visit_subject (b'/' ∷ path)) (consume_visit_counts valid reads h).state
        ≡ relayed
            (visit_subject (b'/' ∷ path))
            (last_message valid (b'/' ∷ path) reads)
            (lookup (visit_subject (b'/' ∷ path)) h.state)
  unfolding consume_visit_counts
  consume_visit_counts-latest path reads h short all =
      consume-latest valid (visit_envelope valid) (b'/' ∷ path) (visit_subject (b'/' ∷ path))
        (λ m. head_or 0 m.key ≡ b'/') (λ m now. fits_visit path m now short) reads h all
