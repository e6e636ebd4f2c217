-- ===== src/Web/Edge/Tests.antt =====
-- Requests to edge: two for helloworld, and two whose paths are not clean.
use pok.Cluster.Versions.{has_prefix}
use pok.Prelude.Bytes.{Bytes, bytes, bytes_beq, bytes_key}
use pok.Prelude.Maps.{Map}
use pok.Prelude.Tests.{◌==◌, if◌then◌else◌}
use pok.Prelude.{◌≡◌, refl, true, false, Option, none, some, []}
use pok.Web.Clean.{clean_path, ends_in_slash}
use pok.Web.Edge.Routed.{target_of, serve-target_of, serve-static_routes}
use pok.Web.Edge.{Proxy, Handler, proxy, routes, edge, ws_default, app, static_routes}
use pok.Web.Mux.{handled, redirect, not_found, fits, serve}

abbrev ws : Proxy Bytes
ws = record { upstream = bytes "ws"; traced = false }

abbrev hw : Proxy Bytes
hw = record { upstream = bytes "hw"; traced = true }

abbrev static : Proxy Bytes
static = record { upstream = bytes "static"; traced = true }

abbrev whole : Bytes → Option Bytes
whole raw = some raw

abbrev mux : Map Bytes (Handler Bytes)
mux = routes whole ws hw static

to_helloworld : serve mux (bytes "/hw/a") ≡ handled (proxy hw)
unfolding serve routes fits has_prefix ends_in_slash bytes_beq
to_helloworld = refl

to_static : serve mux (bytes "/hwa") ≡ handled (proxy static)
unfolding serve routes fits has_prefix ends_in_slash bytes_beq
to_static = refl

to_clean : serve mux (bytes "/x/..//hw/.") ≡ redirect (bytes "/hw")
unfolding serve routes fits has_prefix ends_in_slash bytes_beq
to_clean = refl

-- Without its variables edge takes the default upstreams, and it fails on one that does not parse.
defaults :
    (elim (edge whole (λ name. [])) [ none ↦ not_found | some m ↦ serve m (bytes "/ws") ])
    ≡ handled (proxy (record { upstream = ws_default; traced = false }))
unfolding edge serve fits has_prefix ends_in_slash bytes_beq
defaults = refl

bad_upstream :
    edge (λ raw. if raw == bytes "bad" then none else some raw) (λ name. bytes "bad") ≡ none
unfolding edge bytes_beq
bad_upstream = refl

serve-target_of_example : serve mux (bytes "/hw/a") ≡ (
    if clean_path (bytes "/hw/a") == bytes "/hw/a"
    then handled (target_of ws hw static (bytes "/hw/a"))
    else redirect (clean_path (bytes "/hw/a")))
serve-target_of_example = serve-target_of whole ws hw static (bytes "/hw/a")

of_static : serve static_routes (bytes "/hwa") ≡ handled app
of_static = serve-static_routes whole ws hw static (bytes "/hwa") to_static
