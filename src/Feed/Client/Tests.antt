-- ===== src/Feed/Client/Tests.antt =====
-- Runs and instances of the queue's theorems.
use pok.Feed.Client.{Envelope, new_client, enqueue, take, enqueue_all}
use pok.Feed.Client.Coalesce.{coalesced, take-enqueue_all}
use pok.Feed.Client.Valid.{IsValid, new_client-IsValid, enqueue-IsValid}
use pok.Prelude.Bytes.{bytes, bytes_beq}
use pok.Prelude.Int.{pos}
use pok.Prelude.Maps.{has, index, insert}
use pok.Prelude.{ℕ, ◌≡◌, refl, List, [], ◌∷◌}

abbrev nodes : ℕ → Envelope
nodes n = record {
  subject = bytes "cluster/nodes";
  topic = bytes "cluster/nodes";
  ts = pos n;
  payload = bytes "{}";
}

abbrev visit : ℕ → Envelope
visit n = record {
  subject = bytes "visit/x";
  topic = bytes "visit/x";
  ts = pos n;
  payload = bytes "{}";
}

abbrev updates : List Envelope
updates = nodes 1 ∷ visit 1 ∷ nodes 2 ∷ visit 2 ∷ nodes 3 ∷ []

-- TestClientCoalescesLatestWins, with fewer rounds.
coalesced_updates : (take (enqueue_all new_client updates)).0 ≡ nodes 3 ∷ visit 2 ∷ []
unfolding take enqueue_all enqueue new_client insert has index bytes_beq
coalesced_updates = refl

take-enqueue_all_example :
    let (out, c) = take (enqueue_all new_client updates) in
    (out ≡ coalesced updates) × ((take c).0 ≡ [])
take-enqueue_all_example = take-enqueue_all updates

enqueue-IsValid_example : IsValid (enqueue new_client (nodes 1))
enqueue-IsValid_example = enqueue-IsValid new_client (nodes 1) new_client-IsValid
