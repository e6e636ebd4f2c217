-- ===== src/Cluster/Poll.antt =====
-- The poll loop: `poll` and `serveHealth` of apps/clusterinfo/main.go, over all aspects. `Api` is
-- what the Kubernetes API answers to each listing while one round lasts.
pub mod Aspects
pub mod Calls
pub mod Keys
pub mod Rounds
mod Tests
use pok.Cluster.Poll.Aspects.{Aspect, aspects}
use pok.Cluster.Workloads.{Message}
use pok.Prelude.Int.{ℤ, pos, ltb_ℤ, ◌-ℤ◌}
use pok.Prelude.Lists.{get_elem?}
use pok.Prelude.Tests.{if◌then◌else◌}
use pok.Prelude.{ℕ, Bool, true, false, not, Option, none, some, List, [], ◌∷◌, ◌++◌}

-- One round: the clock, the index that `rand.Intn` gives, what the API answers, and whether the
-- broker takes the message.
pub record Round (Answers : Type 0) : Type 0 where
  pub now : ℤ
  pub choice : ℕ
  pub answers : Answers
  pub accepted : Bool

-- The heartbeat, and the messages in the topic.
pub record Poller (Report : Type 0) : Type 0 where
  pub last_tick : ℤ
  pub written : List (Message Report)

unfoldable pub write_message :
    {Report : Type 0} → Bool → Option (Message Report) → List (Message Report)
write_message accepted none = []
write_message accepted (some m) = if accepted then m ∷ [] else []

-- `call` is the choice of an aspect's function.
module _ {Answers Report : Type 0} (call : Aspect → Answers → Option (Message Report)) where
  unfoldable pub call_at : ℕ → Answers → Option (Message Report)
  call_at choice answers = elim (get_elem? aspects choice) [ none ↦ none | some a ↦ call a answers ]

  unfoldable pub poll : Round Answers → Poller Report → Poller Report
  unfolding write_message call_at
  poll r s = record {
    last_tick = r.now;
    written = s.written ++ write_message r.accepted (call_at r.choice r.answers);
  }

  -- main's loop: a round at once, and then one for each tick until the context is done.
  unfoldable pub poll_all : List (Round Answers) → Poller Report → Poller Report
  unfolding poll
  poll_all [] s = s
  poll_all (r ∷ rounds) s = poll_all rounds (poll r s)

-- Whether /healthz answers 200.
unfoldable pub is_ticking : ℤ → ℤ → Bool
is_ticking now last_tick = not (ltb_ℤ (pos 30) (now -ℤ last_tick))
