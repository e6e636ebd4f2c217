-- ===== src/Feed/Main/Tests.antt =====
-- Environments with and without a cap, and a hub whose two sessions end in the other order.
use pok.Feed.Hub.Steps.{unregisters, act}
use pok.Feed.Hub.Valid.{IsValid, new_hub-IsValid, admit-IsValid}
use pok.Feed.Hub.{Hub, new_hub, admit, unregister, done}
use pok.Feed.Main.Drained.{all_leave, drain-all_leave}
use pok.Feed.Main.{max_clients, allowed_origins, acts, waited, timed_out, drain}
use pok.Prelude.Atoi.{atoi_value}
use pok.Prelude.Bytes.{Bytes, bytes, bytes_beq, bytes_key}
use pok.Prelude.Lists.{contains, Distinct, remove}
use pok.Prelude.Tests.{◌==◌, nat_key, if◌then◌else◌}
use pok.Prelude.{ℕ, ◌≡◌, refl, true, false, some, [], ◌∷◌, arith}

-- WS_MAX_CLIENTS is 2, and two origins are allowed.
abbrev getenv : Bytes → Bytes
getenv name =
    if name == bytes "WS_MAX_CLIENTS"
    then bytes "2"
    else if name == bytes "ALLOWED_ORIGINS"
    then bytes "a.net,b.net"
    else []

abbrev unset : Bytes → Bytes
unset name = []

max_clients_two : max_clients getenv ≡ 2
unfolding max_clients atoi_value bytes_beq
max_clients_two = refl

max_clients_unset : max_clients unset ≡ 256
unfolding max_clients atoi_value bytes_beq
max_clients_unset = refl

origins : allowed_origins getenv ≡ bytes "a.net" ∷ bytes "b.net" ∷ []
unfolding allowed_origins bytes_beq
origins = refl

abbrev two : Hub
two = admit (admit (new_hub 2))

two-IsValid : IsValid two
unfolding admit new_hub
two-IsValid =
    admit-IsValid (admit (new_hub 2)) (admit-IsValid (new_hub 2) (new_hub-IsValid 2) (omega arith))
      (omega arith)

all_two : (c : ℕ) → contains c (1 ∷ 0 ∷ []) ≡ contains c two.clients
unfolding admit new_hub contains
all_two c = ground arith

Distinct-two : Distinct {A = ℕ} (1 ∷ 0 ∷ [])
unfolding contains
Distinct-two = (refl, (refl, tt))

drain-all_leave_example :
    (g : Hub) × (drain (all_leave (1 ∷ 0 ∷ []) (timed_out ∷ [])) two ≡ some (true, g))
    × (g.clients ≡ [])
    × (g.sessions ≡ 0)
drain-all_leave_example =
    drain-all_leave (1 ∷ 0 ∷ []) (timed_out ∷ []) two two-IsValid Distinct-two all_two

-- A session that outlives the timeout.
drain_late :
    (drain (acts (unregisters 1) ∷ timed_out ∷ waited ∷ []) two)
    ≡ some (false, record two { clients = 0 ∷ []; sessions = 1 })
unfolding drain act unregister done admit new_hub remove
drain_late = refl
