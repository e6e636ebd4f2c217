-- ===== src/Feed/Hub.antt =====
-- The latest envelope of each subject and the connected clients: `hub` of apps/wsfeed/main.go.
-- A method that takes `hub.mu` is one step. A `*client` is a number, the address at which `heap`
-- holds the client: `publish` and the client's session share it.
pub mod Valid
pub mod Steps
mod Tests
use pok.Feed.Client.{Envelope, Client, new_client, enqueue}
use pok.Prelude.Bytes.{Bytes, bytes_key}
use pok.Prelude.Lists.{length, remove}
use pok.Prelude.Maps.{Map, insert, range}
use pok.Prelude.Tests.{◌==◌, leb, if◌then◌else◌, nat_key}
use pok.Prelude.{ℕ, zero, suc, ◌+◌, Option, none, some, List, [], ◌∷◌, ◌++◌, map}

abbrev pub Heap : Type 0
Heap = ℕ → Client

unfoldable pub store : ℕ → Client → Heap → Heap
store p c heap = λ q. if p == q then c else heap q

pub record Hub : Type 0 where
  pub state : Map Bytes Envelope
  pub clients : List ℕ
  pub max_clients : ℕ
  pub sessions : ℕ
  pub heap : Heap
  pub next : ℕ

unfoldable pub new_hub : ℕ → Hub
new_hub max_clients = record {
  state = [];
  clients = [];
  max_clients = max_clients;
  sessions = 0;
  heap = λ p. new_client;
  next = 0;
}

-- for c := range h.clients { c.enqueue(e) }
unfoldable pub broadcast : List ℕ → Envelope → Heap → Heap
broadcast [] e heap = heap
broadcast (c ∷ cs) e heap = broadcast cs e (store c (enqueue (heap c) e) heap)

-- The order is that in which `range` visits the clients.
unfoldable pub publish : List ℕ → Envelope → Hub → Hub
publish order e h = record h { state = insert e.subject e h.state; heap = broadcast order e h.heap }

-- The order is that in which `range` visits the subjects.
unfoldable pub snapshot : List Bytes → Hub → List Envelope
snapshot order h = map (λ entry. entry.1) (range order h.state)

-- A new client at an unused address, and one session more to wait for.
unfoldable pub admit : Hub → Hub
unfolding store
admit h = record h {
  clients = h.clients ++ h.next ∷ [];
  sessions = h.sessions + 1;
  heap = store h.next new_client h.heap;
  next = h.next + 1;
}

-- The address of the new client, or `none` for nil.
unfoldable pub register : Hub → Option ℕ × Hub
register h = if leb h.max_clients (length h.clients) then (none, h) else (some h.next, admit h)

-- `WaitGroup.Done` panics when the counter would fall below 0: `none`.
unfoldable pub done : ℕ → Hub → Option Hub
done zero h = none
done (suc n) h = some (record h { sessions = n })

unfoldable pub unregister : ℕ → Hub → Option Hub
unfolding done
unregister c h = done h.sessions (record h { clients = remove c h.clients })
