-- ===== src/Feed/Main/Drained.antt =====
-- The end of the sessions, and of the wait for them.
use pok.Feed.Hub.Steps.{act, unregisters}
use pok.Feed.Hub.Valid.{IsValid, without, without-IsValid, unregister_lem}
use pok.Feed.Hub.{Hub}
use pok.Feed.Main.{Waiting, acts, waited, drain}
use pok.Prelude.Lists.{length, contains, Distinct, remove, contains-remove}
use pok.Prelude.Tests.{◌==◌, eq_iff, eq_refl, if◌then◌else◌, nat_key}
use pok.Prelude.{ℕ, ◌≡◌, ◌∙◌, sym, ap, refl, true, false, some, List, [], ◌∷◌, arith}

-- The clients leave in some order, and then the wait is over.
unfoldable pub all_leave : List ℕ → List Waiting → List Waiting
all_leave [] after = waited ∷ after
all_leave (c ∷ order) after = acts (unregisters c) ∷ all_leave order after

no_clients : (clients : List ℕ) → ((c : ℕ) → contains c clients ≡ false) → clients ≡ []
unfolding contains
no_clients [] h = refl
no_clients (c ∷ clients) h = cc (h c, first c clients)
  where
    first : (c : ℕ) (clients : List ℕ) → contains c (c ∷ clients) ≡ true
    first c clients = ground (arith, eq_refl c)

act_leave :
    (h : Hub) (c : ℕ) (v : IsValid h)
    → contains c h.clients ≡ true
    → act (unregisters c) h ≡ some (without h v c)
unfolding act
act_leave h c v m = unregister_lem h v c m

leave_step :
    (h : Hub) (c : ℕ) (v : IsValid h) (events : List Waiting)
    → contains c h.clients ≡ true
    → drain (acts (unregisters c) ∷ events) h ≡ drain events (without h v c)
unfolding drain
leave_step h c v events m = rw (act_leave h c v m, drain)

contains_cons :
    (c x : ℕ) (order : List ℕ)
    → contains x (c ∷ order) ≡ (if c == x then true else contains x order)
unfolding contains
contains_cons c x order = ground arith

others :
    (c : ℕ) (order : List ℕ) (h : Hub)
    → contains c order ≡ false
    → ((x : ℕ) → contains x (c ∷ order) ≡ contains x h.clients)
    → (x : ℕ) → contains x order ≡ contains x (remove c h.clients)
others c order h d same x =
    ground (arith, contains-remove c x h.clients, eq_iff c x, d, contains_cons c x order, same x)

-- When the clients that a well formed hub has unregister, in whatever order, and the timeout does
-- not come first, `drain` returns true, and then no client and no session is left.
pub drain-all_leave :
    (order : List ℕ) (after : List Waiting) (h : Hub)
    → IsValid h
    → Distinct order
    → ((c : ℕ) → contains c order ≡ contains c h.clients)
    → (g : Hub) × (drain (all_leave order after) h ≡ some (true, g))
      × (g.clients ≡ [])
      × (g.sessions ≡ 0)
unfolding all_leave
drain-all_leave [] after h v d same =
    let empty : h.clients ≡ [] =
      no_clients h.clients (λ c. sym (same c) ∙ unfold contains in refl) in
    let over : h.sessions ≡ 0 = v.counted ∙ ap length empty in
    (h, unfold drain in rw over refl, empty, over)
drain-all_leave (c ∷ order) after h v d same =
    let m : contains c h.clients ≡ true =
      sym (same c) ∙ unfold contains in ground (arith, eq_refl c) in
    let (g, q, empty, over) =
      drain-all_leave order after (without h v c) (without-IsValid h v c m) d.1
        (others c order h d.0 same) in
    (g, leave_step h c v (all_leave order after) m ∙ q, empty, over)
