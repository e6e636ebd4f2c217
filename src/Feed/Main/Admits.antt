-- ===== src/Feed/Main/Admits.antt =====
-- The cap on sessions that the environment gives.
use pok.Feed.Hub.{register, new_hub}
use pok.Feed.Main.{max_clients, feed}
use pok.Prelude.Atoi.{atoi-format_int, atoi_value-atoi, format_int-ne-nil}
use pok.Prelude.Bytes.{Bytes, bytes, bytes_key}
use pok.Prelude.Decimal.{format_int, IsInt64}
use pok.Prelude.Env.{env}
use pok.Prelude.Int.{ℤ, pos, negsuc, is_nonpos, pos_part}
use pok.Prelude.Tests.{if◌then◌else◌}
use pok.Prelude.{ℕ, zero, suc, ◌≤◌, ◌≡◌, refl, some, arith}

cap_pos : (n : ℤ) → 1 ≤ (if is_nonpos n then 256 else pos_part n)
cap_pos (pos zero) = omega arith
cap_pos (pos (suc n)) = omega arith
cap_pos (negsuc n) = omega arith

max_clients_pos : (getenv : Bytes → Bytes) → 1 ≤ max_clients getenv
unfolding max_clients
max_clients_pos getenv = cap_pos _

-- Whatever WS_MAX_CLIENTS holds, also nothing, garbage, 0 or less, or a number out of range, the hub
-- starts with room for a session: the first one is admitted.
pub register-feed : (getenv : Bytes → Bytes) → (register (feed getenv)).0 ≡ some 0
unfolding feed register new_hub
register-feed getenv = ground (arith, max_clients_pos getenv)

-- A positive int64 in decimal form is the cap itself.
pub max_clients-format_int :
    (getenv : Bytes → Bytes) (n : ℕ)
    → IsInt64 (pos (suc n))
    → getenv (bytes "WS_MAX_CLIENTS") ≡ format_int (pos (suc n))
    → max_clients getenv ≡ suc n
unfolding max_clients env
max_clients-format_int getenv n h e = rw e (
    rw (format_int-ne-nil (pos (suc n)) h) (
      rw
        (atoi_value-atoi (format_int (pos (suc n))) (pos (suc n)) (atoi-format_int (pos (suc n)) h))
        refl))
