-- ===== src/Prelude/Env.antt =====
-- `env` of apps/edge, helloworld, visitcounter, wsfeed and clusterinfo: `getenv` is os.Getenv, which
-- gives "" for a variable that is not set.
use mathlib.Core.Bool.{not}
use mathlib.Core.List.{[]}
use pok.Prelude.Bytes.{Bytes, bytes_key}
use pok.Prelude.Tests.{◌==◌, if◌then◌else◌}

unfoldable pub env : (Bytes → Bytes) → Bytes → Bytes → Bytes
env getenv name default = if not (getenv name == []) then getenv name else default
