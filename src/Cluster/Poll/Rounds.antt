-- ===== src/Cluster/Poll/Rounds.antt =====
-- What the topic holds for each aspect after some rounds.
use pok.Cluster.Poll.Aspects.{Aspect, aspects}
use pok.Cluster.Poll.Keys.{key_of, HasKey, key_of-injective}
use pok.Cluster.Poll.{Round, Poller, write_message, call_at, poll, poll_all, is_ticking}
use pok.Cluster.Workloads.{Message}
use pok.Kafka.Topics.{last_keyed}
use pok.Prelude.Bytes.{Bytes, bytes_key}
use pok.Prelude.Int.{ℤ, pos, ◌+ℤ◌, ◌≤ℤ◌, +ℤ_parts, -ℤ_parts}
use pok.Prelude.Lists.{get_elem?}
use pok.Prelude.Tests.{◌==◌, eq_iff, if◌then◌else◌, Option-cases, Bool-cases}
use pok.Prelude.{
  ◌≡◌, ◌∙◌, ◌↔◌, refl, ap, inl, inr, Bool, true, false, ◌&&◌, Option, none, some, List, [], ◌∷◌,
  ◌++◌, arith,
}

abbrev pub or_else : {A : Type 0} → Option A → Option A → Option A
or_else none b = b
or_else (some a) b = some a

module _ {A : Type 0} (key : A → Bytes) where
  pub last_keyed-append :
      (u : Bytes) (xs ys : List A)
      → last_keyed key u (xs ++ ys) ≡ or_else (last_keyed key u ys) (last_keyed key u xs)
  unfolding last_keyed
  last_keyed-append u [] ys = ground arith
  last_keyed-append u (x ∷ xs) ys = ground (arith, last_keyed-append u xs ys)

is_ticking_iff : (now t : ℤ) → (is_ticking now t ≡ true) ↔ (now ≤ℤ t +ℤ pos 30)
unfolding is_ticking
is_ticking_iff now t = (
  λ h. ground (arith, h, -ℤ_parts now t, +ℤ_parts t (pos 30)),
  λ h. ground (arith, h, -ℤ_parts now t, +ℤ_parts t (pos 30)),
)

module _ {Answers Report : Type 0} (call : Aspect → Answers → Option (Message Report)) where
  -- Whether a round chose the aspect.
  abbrev pub chose : Aspect → Round Answers → Bool
  chose a r = elim (get_elem? aspects r.choice) [ none ↦ false | some b ↦ key_of b == key_of a ]

  -- What the aspect's function returned in the last round that chose the aspect, had an answer
  -- from the API and got its message into the topic.
  unfoldable pub last_report : Aspect → List (Round Answers) → Option (Message Report)
  last_report a [] = none
  last_report a (r ∷ rounds) =
      or_else (last_report a rounds) (if chose a r && r.accepted then call a r.answers else none)

  abbrev keyed : Message Report → Bytes
  keyed m = m.aspect

  module _ (keys : (a : Aspect) (answers : Answers) → HasKey (key_of a) (call a answers)) where
    last_keyed-write_message :
        (u : Bytes) (accepted : Bool) (o : Option (Message Report)) (k : Bytes)
        → HasKey k o
        → last_keyed keyed u (write_message accepted o) ≡ (if k == u && accepted then o else none)
    unfolding last_keyed write_message
    last_keyed-write_message u accepted none k h = ground arith
    last_keyed-write_message u accepted (some m) k h = ground (arith, h)

    written_in :
        (a : Aspect) (r : Round Answers)
        → last_keyed keyed (key_of a) (write_message r.accepted (call_at call r.choice r.answers))
          ≡ (if chose a r && r.accepted then call a r.answers else none)
    unfolding call_at
    written_in a r = elim (Option-cases (get_elem? aspects r.choice)) [
      | inl e ↦ rw e (unfold last_keyed write_message in refl)
      | inr (b, e) ↦ rw e (
          last_keyed-write_message (key_of a) r.accepted (call b r.answers) (key_of b)
            (keys b r.answers)
          ∙ elim (Bool-cases (key_of b == key_of a)) [
            | inl same ↦
                ap (λ c. if key_of b == key_of a && r.accepted then call c r.answers else none)
                  (key_of-injective b a ((eq_iff (key_of b) (key_of a)).0 same))
            | inr other ↦ rw other
          ])
    ]

    written-poll_all :
        (a : Aspect) (rounds : List (Round Answers)) (s : Poller Report)
        → last_keyed keyed (key_of a) (poll_all call rounds s).written
          ≡ or_else (last_report a rounds) (last_keyed keyed (key_of a) s.written)
    unfolding poll_all poll last_report
    written-poll_all a [] s = refl
    written-poll_all a (r ∷ rounds) s = ground (
      arith,
      written-poll_all a rounds (poll call r s),
      last_keyed-append keyed (key_of a) s.written
          (write_message r.accepted (call_at call r.choice r.answers)),
      written_in a r,
    )

    -- After any rounds the last message under an aspect's key is what its function returned in the
    -- last round that chose it, had an answer and got the message written; and if there was none,
    -- the topic has no message under that key. What happens to other aspects does not matter.
    pub poll_all-latest :
        (a : Aspect) (rounds : List (Round Answers)) (start : ℤ)
        → last_keyed keyed
            (key_of a)
            (poll_all call rounds (record { last_tick = start; written = [] })).written
          ≡ last_report a rounds
    poll_all-latest a rounds start =
        written-poll_all a rounds (record { last_tick = start; written = [] })
        ∙ unfold last_keyed in or_else-none (last_report a rounds)
      where
        or_else-none : (o : Option (Message Report)) → or_else o none ≡ o
        or_else-none none = refl
        or_else-none (some m) = refl

  -- The time of the last round.
  abbrev pub last_start : ℤ → List (Round Answers) → ℤ
  last_start start [] = start
  last_start start (r ∷ rounds) = last_start r.now rounds

  last_tick-poll_all :
      (rounds : List (Round Answers)) (s : Poller Report)
      → (poll_all call rounds s).last_tick ≡ last_start s.last_tick rounds
  unfolding poll_all poll
  last_tick-poll_all [] s = refl
  last_tick-poll_all (r ∷ rounds) s = last_tick-poll_all rounds (poll call r s)

  -- /healthz answers 200 exactly while the last round began no more than 30 seconds ago, whether
  -- that round had an answer and got a message written or not.
  pub poll_all-is_ticking :
      (rounds : List (Round Answers)) (s : Poller Report) (now : ℤ)
      → (is_ticking now (poll_all call rounds s).last_tick ≡ true)
        ↔ (now ≤ℤ last_start s.last_tick rounds +ℤ pos 30)
  poll_all-is_ticking rounds s now =
      rw (last_tick-poll_all rounds s) (is_ticking_iff now (last_start s.last_tick rounds))
