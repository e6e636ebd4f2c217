-- ===== src/Pipeline/Relayed.antt =====
-- The last message that wsfeed reads under a key holds the last value that was written for it.
use pok.Feed.Client.{Envelope}
use pok.Feed.Consume.Latest.{last_message, relayed, AllRead}
use pok.Feed.Consume.{Moment, envelope_of}
use pok.Kafka.{Message, Read}
use pok.Feed.Hub.{new_hub}
use pok.Prelude.Maps.{lookup}
use pok.Kafka.Topics.{topic_message, last_keyed, Delivers, ended, retried, delivered, compacted}
use pok.Prelude.Bytes.{Bytes, bytes_key}
use pok.Prelude.Int.{ℤ}
use pok.Prelude.Lists.{All}
use pok.Prelude.Tests.{◌==◌, eq_iff, if◌then◌else◌, Bool-cases}
use pok.Prelude.{ℕ, ◌≡◌, refl, inl, inr, Bool, true, ◌&&◌, Option, none, some, List, ◌∷◌, arith}

-- A new hub knows no subject.
pub new_hub-state : (subj : Bytes) (n : ℕ) → lookup subj (new_hub n).state ≡ none
unfolding lookup new_hub
new_hub-state subj n = refl

module _ {A : Type 0} (key_of : A → Bytes) (encode : A → Bytes) where
  -- What a reader holds for a key and what was written last for it agree.
  pub data Agrees : Option A → Option (Message × ℤ) → Type 0 where
    neither : Agrees none none
    both : (a : A) (m : Message) (now : ℤ) → m.value ≡ encode a → Agrees (some a) (some (m, now))

  last_keyed_step :
      (u : Bytes) (a : A) (written : List A)
      → last_keyed key_of u (a ∷ written) ≡ elim (last_keyed key_of u written) [
        | some x ↦ some x
        | none ↦ if key_of a == u then some a else none
      ]
  unfolding last_keyed
  last_keyed_step u a written = refl

  last_keyed_replaced :
      (u : Bytes) (a later : A) (written : List A)
      → last_keyed key_of (key_of a) written ≡ some later
      → last_keyed key_of u (a ∷ written) ≡ last_keyed key_of u written
  unfolding last_keyed
  last_keyed_replaced u a later written e = ground (arith, eq_iff (key_of a) u)

  -- The hub holds the message for what was written last, or nothing.
  abbrev pub IsHeld : Option A → Option Envelope → Type 0
  IsHeld none held = held ≡ none
  IsHeld (some a) held = (e : Envelope) × (held ≡ some e) × (e.payload ≡ encode a)

  pub Agrees-IsHeld :
      (subj : Bytes) (o : Option A) (l : Option (Message × ℤ))
      → Agrees o l
      → IsHeld o (relayed subj l none)
  Agrees-IsHeld subj none none neither = refl
  Agrees-IsHeld subj (some a) (some (m, now)) (both _ _ _ e) = (envelope_of subj m now, refl, e)
  Agrees-IsHeld subj none (some x) g = elim g [ ]
  Agrees-IsHeld subj (some a) none g = elim g [ ]

  -- A property of all keys written holds of all messages read.
  pub Delivers-AllRead :
      (P : Bytes → Type 0) {written : List A} {reads : List (Read Moment)}
      → Delivers key_of encode written reads
      → All (λ a. P (key_of a)) written
      → AllRead (λ m. P m.key) reads
  unfolding topic_message
  Delivers-AllRead P ended h = tt
  Delivers-AllRead P (retried d) h = Delivers-AllRead P d h
  Delivers-AllRead P (delivered a time at d) h = (h.0, Delivers-AllRead P d h.1)
  Delivers-AllRead P (compacted a later e d) h = Delivers-AllRead P d h.1

  module _ (valid : Bytes → Bool) (encodes : (a : A) → valid (encode a) ≡ true) where
    read-Agrees :
        (u : Bytes) (a : A) (time now : ℤ) (o : Option A) (l : Option (Message × ℤ))
        → Agrees o l
        → Agrees
            (elim o [ some x ↦ some x | none ↦ if key_of a == u then some a else none ])
            (elim l [
              | some x ↦ some x
              | none ↦
                  if key_of a == u && valid (encode a)
                  then some (topic_message key_of encode a time, now)
                  else none
            ])
    unfolding topic_message
    read-Agrees u a time now none none neither = elim (Bool-cases (key_of a == u)) [
      | inl e ↦ rw e (rw (encodes a) (both a (topic_message key_of encode a time) now refl))
      | inr e ↦ rw e neither
    ]
    read-Agrees u a time now none (some y) g = elim g [ ]
    read-Agrees u a time now (some x) none g = elim g [ ]
    read-Agrees u a time now (some x) (some y) g = g

    pub Delivers-Agrees :
        (u : Bytes) {written : List A} {reads : List (Read Moment)}
        → Delivers key_of encode written reads
        → Agrees (last_keyed key_of u written) (last_message valid u reads)
    unfolding last_message topic_message
    Delivers-Agrees u ended = unfold last_keyed in neither
    Delivers-Agrees u (retried d) = Delivers-Agrees u d
    Delivers-Agrees u (delivered {written} {reads} a time at d) = rw (last_keyed_step u a written) (
        read-Agrees u a time at.now (last_keyed key_of u written) (last_message valid u reads)
          (Delivers-Agrees u d))
    Delivers-Agrees u (compacted {written} {reads} a later e d) =
        rw (last_keyed_replaced u a later written e) (Delivers-Agrees u d)
