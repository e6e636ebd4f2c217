-- ===== src/Web/Edge/Routed.antt =====
-- The table at the top of apps/edge/main.go, and the two apps behind the proxy.
use mathlib.Core.List.{append_cancel_right}
use pok.Cluster.Versions.{has_prefix}
use pok.Prelude.Bytes.{Bytes, bytes, bytes_beq, bytes_key}
use pok.Prelude.Lists.{head_or, contains}
use pok.Prelude.Maps.{Map, keys}
use pok.Prelude.Tests.{◌==◌, eq_iff, if◌then◌else◌, Bool-cases}
use pok.Prelude.{◌≡◌, ◌∙◌, refl, sym, ap, inl, inr, false, ◌||◌, Option, ◌++◌, arith}
use pok.Web.Clean.Idempotent.{clean_path_head}
use pok.Web.Clean.{clean_path, ends_in_slash}
use pok.Web.Edge.{Proxy, Handler, ok, proxy, health, app, routes, app_routes, static_routes}
use pok.Web.Mux.Exact.{eq_sym, is_exact-contains, slashed_ne, unslash_root, has_prefix_slash}
use pok.Web.Mux.Settled.{lacks_slash, serve_lem}
use pok.Web.Mux.{fits, handled, redirect, find, handler_of, serve}

-- /healthz is edge's own, /ws -> wsfeed, /hw and /hw/* -> helloworld, /* -> static.
abbrev pub target_of : {Url : Type 0} → Proxy Url → Proxy Url → Proxy Url → Bytes → Handler Url
target_of ws hw static path =
    if path == bytes "/healthz"
    then ok
    else if path == bytes "/ws"
    then proxy ws
    else if path == bytes "/hw" || has_prefix path (bytes "/hw/")
    then proxy hw
    else proxy static

unslash_hw : (c : Bytes) → bytes "/hw/" ≡ c ++ bytes "/" → c ≡ bytes "/hw"
unslash_hw c p = sym (append_cancel_right (bytes "/hw") c (bytes "/") p)

module _ {Url : Type 0} (parse_url : Bytes → Option Url) (ws hw static : Proxy Url) where
  abbrev mux : Map Bytes (Handler Url)
  mux = routes parse_url ws hw static

  found :
      (path : Bytes)
      → head_or 0 path ≡ b'/'
      → handler_of (find mux path) ≡ handled (target_of ws hw static path)
  found path slash = elim (Bool-cases (path == bytes "/healthz")) [
    | inl e ↦
        rw ((eq_iff path (bytes "/healthz")).0 e)
          (unfold routes find has_prefix bytes_beq ends_in_slash in refl)
    | inr a ↦ elim (Bool-cases (path == bytes "/ws")) [
      | inl e ↦
          rw ((eq_iff path (bytes "/ws")).0 e)
            (unfold routes find has_prefix bytes_beq ends_in_slash in refl)
      | inr b ↦ elim (Bool-cases (path == bytes "/hw")) [
        | inl e ↦
            rw ((eq_iff path (bytes "/hw")).0 e)
              (unfold routes find has_prefix bytes_beq ends_in_slash in refl)
        | inr c ↦ elim (Bool-cases (path == bytes "/hw/")) [
          | inl e ↦
              rw ((eq_iff path (bytes "/hw/")).0 e)
                (unfold routes find has_prefix bytes_beq ends_in_slash in refl)
          | inr d ↦
              unfold routes find ends_in_slash in
              ground (
                arith,
                a,
                b,
                c,
                d,
                eq_sym path (bytes "/healthz"),
                eq_sym path (bytes "/ws"),
                eq_sym path (bytes "/hw"),
                eq_sym path (bytes "/hw/"),
                has_prefix_slash path slash,
              )
        ]
      ]
    ]
  ]

  not_slashed :
      (c : Bytes)
      → head_or 0 c ≡ b'/'
      → (c == bytes "/hw") ≡ false
      → contains (c ++ bytes "/") (keys mux) ≡ false
  not_slashed c h ne =
      unfold routes contains in
      ground (
        arith,
        slashed_ne c (bytes "/healthz") (unfold ends_in_slash in refl),
        slashed_ne c (bytes "/ws") (unfold ends_in_slash in refl),
        slashed_ne c (bytes "/hw") (unfold ends_in_slash in refl),
        eq_iff (bytes "/hw/") (c ++ bytes "/"),
        unslash_hw c,
        eq_iff c (bytes "/hw"),
        ne,
        eq_iff (bytes "/") (c ++ bytes "/"),
        unslash_root c h,
      )

  never_lacks_slash : (path : Bytes) → lacks_slash mux path ≡ false
  never_lacks_slash path = elim (Bool-cases (clean_path path == bytes "/hw")) [
    | inl e ↦
        rw ((eq_iff (clean_path path) (bytes "/hw")).0 e)
          (unfold routes find fits has_prefix bytes_beq ends_in_slash in refl)
    | inr e ↦ ground (
      arith,
      not_slashed (clean_path path) (clean_path_head path) e,
      is_exact-contains mux (clean_path path ++ bytes "/"),
    )
  ]

  -- Edge answers a clean path as its comment says, and redirects any other to its clean form.
  pub serve-target_of :
      (path : Bytes)
      → serve mux path ≡ (
          if clean_path path == path
          then handled (target_of ws hw static path)
          else redirect (clean_path path))
  serve-target_of path =
      serve_lem mux path
      ∙ rw (never_lacks_slash path) (elim (Bool-cases (clean_path path == path)) [
        | inl e ↦ rw e (
            found (clean_path path) (clean_path_head path)
            ∙ ap (λ q. handled (target_of ws hw static q)) ((eq_iff (clean_path path) path).0 e))
        | inr e ↦ rw e
      ])

-- helloworld and static.
app_found :
    (path : Bytes)
    → head_or 0 path ≡ b'/'
    → handler_of (find app_routes path) ≡ handled (if path == bytes "/healthz" then health else app)
unfolding app_routes find
app_found path slash = elim (Bool-cases (path == bytes "/healthz")) [
  | inl e ↦
      rw ((eq_iff path (bytes "/healthz")).0 e)
        (unfold fits has_prefix bytes_beq ends_in_slash in refl)
  | inr a ↦
      unfold fits ends_in_slash in
      ground (arith, a, eq_sym path (bytes "/healthz"), has_prefix_slash path slash)
]

app_lacks_slash : (path : Bytes) → lacks_slash app_routes path ≡ false
app_lacks_slash path =
    ground (arith, is_exact-contains app_routes (clean_path path ++ bytes "/"), unregistered)
  where
    unregistered : contains (clean_path path ++ bytes "/") (keys app_routes) ≡ false
    unregistered =
        unfold app_routes contains in
        ground (
          arith,
          slashed_ne (clean_path path) (bytes "/healthz") (unfold ends_in_slash in refl),
          eq_iff (bytes "/") (clean_path path ++ bytes "/"),
          unslash_root (clean_path path) (clean_path_head path),
        )

-- The apps behind the proxy answer /healthz themselves, and every other clean path by their own
-- handler.
pub serve-app_routes :
    (path : Bytes)
    → serve app_routes path ≡ (
        if clean_path path == path
        then handled (if path == bytes "/healthz" then health else app)
        else redirect (clean_path path))
serve-app_routes path =
    serve_lem app_routes path
    ∙ rw (app_lacks_slash path) (elim (Bool-cases (clean_path path == path)) [
      | inl e ↦ rw e (
          app_found (clean_path path) (clean_path_head path)
          ∙ ap (λ (q : Bytes). handled (if q == bytes "/healthz" then health else app))
              ((eq_iff (clean_path path) path).0 e))
      | inr e ↦ rw e
    ])

static_routes_lem : static_routes ≡ app_routes
unfolding static_routes app_routes
static_routes_lem = refl

-- What edge proxies to the static file server is served there from the files, under the path that
-- the browser asked for.
pub serve-static_routes :
    {Url : Type 0} (parse_url : Bytes → Option Url) (ws hw static : Proxy Url) (path : Bytes)
    → serve (routes parse_url ws hw static) path ≡ handled (proxy static)
    → serve static_routes path ≡ handled app
serve-static_routes parse_url ws hw static path h =
    rw (static_routes_lem, serve-app_routes path)
      (ground (arith, serve-target_of parse_url ws hw static path, h))
