-- ===== src/Web/Edge.antt =====
-- `main` and `proxyTo` of apps/edge/main.go, and the muxes of helloworld and static behind it.
pub mod Routed
mod Tests
use pok.Prelude.Bytes.{Bytes, bytes, bytes_key}
use pok.Prelude.Env.{env}
use pok.Prelude.Maps.{Map}
use pok.Prelude.Tests.{◌==◌, if◌then◌else◌}
use pok.Prelude.{Bool, true, false, ◌&&◌, not, Option, none, some, List, [], ◌∷◌}
use pok.Web.Mux.{Answer, serve}

-- A reverse proxy to a parsed URL, which carries the trace on or does not.
pub record Proxy (Url : Type 0) : Type 0 where
  pub upstream : Url
  pub traced : Bool

pub data Handler (Url : Type 0) : Type 0 where
  ok : Handler Url
  proxy : Proxy Url → Handler Url

abbrev pub ws_default : Bytes
ws_default = bytes "http://wsfeed.app-livefeed.svc.cluster.local:80"

abbrev pub hw_default : Bytes
hw_default = bytes "http://helloworld.app-helloworld.svc.cluster.local:80"

abbrev pub static_default : Bytes
static_default = bytes "http://static.app-livefeed.svc.cluster.local:80"

module _ {Url : Type 0} (parse_url : Bytes → Option Url) where
  -- `none` is log.Fatalf.
  unfoldable pub proxy_to : Bytes → Bool → Option (Proxy Url)
  proxy_to raw traced = elim (parse_url raw) [
    | none ↦ none
    | some u ↦ some (record { upstream = u; traced = traced })
  ]

  infixl 5 ◌>>=◌
  abbrev ◌>>=◌ : {A B : Type 0} → Option A → (A → Option B) → Option B
  none >>= f = none
  some a >>= f = f a

  -- The handlers that main registers.
  unfoldable pub routes : Proxy Url → Proxy Url → Proxy Url → Map Bytes (Handler Url)
  routes ws hw static =
      (bytes "/healthz", ok)
      ∷ (bytes "/ws", proxy ws)
      ∷ (bytes "/hw", proxy hw)
      ∷ (bytes "/hw/", proxy hw)
      ∷ (bytes "/", proxy static)
      ∷ []

  unfoldable pub edge : (Bytes → Bytes) → Option (Map Bytes (Handler Url))
  unfolding env proxy_to routes
  edge getenv = do
    ws ← proxy_to (env getenv (bytes "WS_UPSTREAM") ws_default) false
    hw ← proxy_to (env getenv (bytes "HW_UPSTREAM") hw_default) true
    static ← proxy_to (env getenv (bytes "STATIC_UPSTREAM") static_default) true
    some (routes ws hw static)

-- Whether a request gets a server span: edge's filter, and that of helloworld and static.
unfoldable pub has_span : Bytes → Bool
has_span path = not (path == bytes "/healthz") && not (path == bytes "/ws")

unfoldable pub has_span_behind : Bytes → Bool
has_span_behind path = not (path == bytes "/healthz")

-- helloworld and static have two handlers each: the health check and the app's own, which greets and
-- logs the visit, or serves files.
pub data AppHandler : Type 0 where
  health : AppHandler
  app : AppHandler

unfoldable pub app_routes : Map Bytes AppHandler
app_routes = (bytes "/healthz", health) ∷ (bytes "/", app) ∷ []

unfoldable pub static_routes : Map Bytes AppHandler
static_routes = (bytes "/healthz", health) ∷ (bytes "/", app) ∷ []
