-- ===== src/Feed/Client.antt =====
-- The outbound queue of one /ws session: `envelope` and `client` of apps/wsfeed/main.go.
-- A method runs under `client.mu`, so it is one step. The channel `notify` holds one token or none.
pub mod Valid
pub mod Coalesce
mod Tests
use pok.Prelude.Bytes.{Bytes, bytes_key}
use pok.Prelude.Int.{ℤ, pos}
use pok.Prelude.Lists.{contains}
use pok.Prelude.Maps.{Map, has, index, insert}
use pok.Prelude.Tests.{if◌then◌else◌}
use pok.Prelude.{Bool, true, false, List, [], ◌∷◌, ◌++◌, map}

pub record Envelope : Type 0 where
  pub subject : Bytes
  pub topic : Bytes
  pub ts : ℤ
  pub payload : Bytes

-- Go's zero value, which a read of a missing key gives.
abbrev pub zero_envelope : Envelope
zero_envelope = record { subject = []; topic = []; ts = pos 0; payload = [] }

pub record Client : Type 0 where
  pub pending : Map Bytes Envelope
  pub order : List Bytes
  pub notify : Bool

-- &client{pending: map[string]envelope{}, notify: make(chan struct{}, 1)}
unfoldable pub new_client : Client
new_client = record { pending = []; order = []; notify = false }

-- The send on `notify` is dropped when the channel is full: either way it holds a token afterwards.
unfoldable pub enqueue : Client → Envelope → Client
enqueue c e = record {
  pending = insert e.subject e c.pending;
  order = if has e.subject c.pending then c.order else c.order ++ e.subject ∷ [];
  notify = true;
}

-- The envelopes, and the emptied queue.
unfoldable pub take : Client → List Envelope × Client
take c = (
  map (λ subj. index zero_envelope subj c.pending) c.order,
  record c { pending = []; order = [] },
)

-- The receive `<-cl.notify` of a session.
unfoldable pub receive_notify : Client → Client
receive_notify c = record c { notify = false }

-- Updates that arrive while the session does not read.
unfoldable pub enqueue_all : Client → List Envelope → Client
enqueue_all c [] = c
enqueue_all c (e ∷ es) = enqueue_all (enqueue c e) es
