-- ===== src/Feed/Session/Synced.antt =====
-- The invariant that ties a session's browser and queue to the hub's state, and what the steps
-- of other goroutines do to it.
use mathlib.Core.Option.{some-injective}
use mathlib.Core.Path.{subst}
use pok.Feed.Client.Coalesce.{last_update, or_else}
use pok.Feed.Client.{Envelope, Client, enqueue, take, receive_notify}
use pok.Feed.Hub.Steps.{
  Action, publishes, registers, unregisters, receives, takes, act, update, IsAllowed,
}
use pok.Feed.Hub.Valid.{IsValid, heap-publish, unregister_lem}
use pok.Feed.Hub.{Hub, publish, admit, register}
use pok.Feed.Session.{Phase, accepting, upgraded, sending, live, woken, gone, World, IsForeign}
use pok.Prelude.Bytes.{Bytes, bytes_key}
use pok.Prelude.Lists.{length, contains, contains-snoc, contains-remove}
use pok.Prelude.Maps.{IsRange, lookup, has, insert, lookup-insert}
use pok.Prelude.Tests.{Bool-cases, leb, nat_key}
use pok.Prelude.{ℕ, ◌≡◌, ◌≢◌, refl, sym, ◌∙◌, inl, inr, true, some, List, [], ◌++◌, arith}

-- What another goroutine's step does to the queue at `p`.
pub data Effect (p : ℕ) (h h' : Hub) : Type 0 where
  untouched :
      h'.state ≡ h.state → h'.heap p ≡ h.heap p → contains p h'.clients ≡ true → Effect p h h'
  updated :
      (e : Envelope)
      → h'.state ≡ insert e.subject e h.state
      → h'.heap p ≡ enqueue (h.heap p) e
      → contains p h'.clients ≡ true
      → Effect p h h'

module _ (p : ℕ) (h : Hub) (v : IsValid h) (mine : contains p h.clients ≡ true) where
  publish-Effect :
      (order : List ℕ) (e : Envelope)
      → IsRange (λ c. contains c h.clients) order
      → Effect p h (publish order e h)
  publish-Effect order e r =
      updated e (unfold publish in refl) (heap-publish order e h p r ∙ rw mine refl)
        (unfold publish in mine)

  admit-Effect : Effect p h (admit h)
  unfolding admit
  admit-Effect =
      untouched refl (ground (arith, v.known p mine))
        (ground (arith, contains-snoc p h.next h.clients))

  register-Effect : Effect p h (register h).1
  unfolding register
  register-Effect = elim (Bool-cases (leb h.max_clients (length h.clients))) [
    | inl e ↦ rw e (untouched refl refl mine)
    | inr e ↦ rw e admit-Effect
  ]

  update-Effect : (c : ℕ) (f : Client → Client) → c ≢ p → Effect p h (update c f h)
  unfolding update
  update-Effect c f ne = untouched refl (ground arith) mine

  pub foreign-Effect :
      (a : Action) (h' : Hub) → IsForeign p a → IsAllowed a h → act a h ≡ some h' → Effect p h h'
  unfolding act
  foreign-Effect (publishes order e) h' _ r q =
      subst (Effect p h) (some-injective _ _ q) (publish-Effect order e r)
  foreign-Effect registers h' _ _ q = subst (Effect p h) (some-injective _ _ q) register-Effect
  foreign-Effect (unregisters c) h' ne m q =
      subst (Effect p h) (some-injective _ _ (sym (unregister_lem h v c m) ∙ q))
        (untouched refl refl (ground (arith, contains-remove c p h.clients)))
  foreign-Effect (receives c) h' ne _ q =
      subst (Effect p h) (some-injective _ _ q) (update-Effect c receive_notify ne)
  foreign-Effect (takes c) h' ne _ q =
      subst (Effect p h) (some-injective _ _ q) (update-Effect c (λ x. (take x).1) ne)

-- The envelopes `es`, and over them the queue at `p`, show the hub's state.
pub record Shows (es : List Envelope) (p : ℕ) (h : Hub) : Type 0 where
  pub at : (k : Bytes) → or_else (lookup k (h.heap p).pending) (last_update k es) ≡ lookup k h.state

-- A queue that is not empty has its token.
pub record IsNotified (p : ℕ) (h : Hub) : Type 0 where
  pub at : (k : Bytes) → has k (h.heap p).pending ≡ true → (h.heap p).notify ≡ true

abbrev pub IsLinked : Phase → World → Type 0
IsLinked accepting w = (w.received ≡ []) × IsNotified w.client w.hub
IsLinked upgraded w = (w.received ≡ []) × IsNotified w.client w.hub
IsLinked (sending es) w = Shows (w.received ++ es) w.client w.hub × IsNotified w.client w.hub
IsLinked live w = Shows w.received w.client w.hub × IsNotified w.client w.hub
IsLinked woken w = Shows w.received w.client w.hub
IsLinked gone w = Unit

abbrev pub IsMember : Phase → World → Type 0
IsMember gone w = Unit
IsMember _ w = contains w.client w.hub.clients ≡ true

pub record IsSynced (ph : Phase) (w : World) : Type 0 where
  pub hub_valid : IsValid w.hub
  pub counted : w.messages_sent ≡ length w.received
  pub member : IsMember ph w
  pub linked : IsLinked ph w

pub Effect-Shows :
    {p : ℕ} {h h' : Hub} (es : List Envelope) → Effect p h h' → Shows es p h → Shows es p h'
Effect-Shows es (untouched s q m) sh = record { at = λ k. ground (arith, sh.at k) }
Effect-Shows {p} {h} es (updated e s q m) sh = record {
  at = λ k.
      rw (s, q)
        (unfold enqueue in
          ground (
            arith,
            sh.at k,
            lookup-insert e.subject k e h.state,
            lookup-insert e.subject k e (h.heap p).pending,
          ));
}

pub Effect-IsNotified : {p : ℕ} {h h' : Hub} → Effect p h h' → IsNotified p h → IsNotified p h'
Effect-IsNotified (untouched s q m) n = record { at = λ k. rw q (n.at k) }
Effect-IsNotified (updated e s q m) n = record { at = λ k. rw q (unfold enqueue in λ _. refl) }

pub Effect-contains : {p : ℕ} {h h' : Hub} → Effect p h h' → contains p h'.clients ≡ true
Effect-contains (untouched s q m) = m
Effect-contains (updated e s q m) = m
