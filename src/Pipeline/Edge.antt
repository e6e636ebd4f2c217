-- ===== src/Pipeline/Edge.antt =====
-- The requests of browsers to edge, of which helloworld counts those that are proxied to it.
use mathlib.Core.Path.{subst}
use pok.Cluster.Versions.{has_prefix}
use pok.Feed.Consume
use pok.Feed.Consume.{visit_subject, consume_visit_counts}
use pok.Feed.Hub.{new_hub}
use pok.Kafka.Topics.{Delivers}
use pok.Kafka.{Read}
use pok.Pipeline.Logged.{HasSlash, requests}
use pok.Pipeline.Shown.{IsShownAs, served-shown}
use pok.Pipeline.{Visit, logged}
use pok.Prelude.Bytes.{Bytes, bytes, bytes_beq, bytes_key}
use pok.Prelude.Lists.{All, length}
use pok.Prelude.Maps.{Map, lookup}
use pok.Prelude.Tests.{◌==◌, eq_iff, if◌then◌else◌, Bool-cases}
use pok.Prelude.{
  ℕ, ◌<◌, ◌≡◌, refl, inl, inr, Bool, true, false, ◌&&◌, ◌||◌, none, List, [], ◌∷◌, arith,
}
use pok.Visits.Replay.{AllRanged}
use pok.Visits.{Count, run, new_counter}
use pok.Web.Clean.Idempotent.{clean_path_head}
use pok.Web.Clean.{clean_path}
use pok.Web.Edge.Routed.{serve-target_of, serve-app_routes}
use pok.Web.Edge.{Handler, ok, proxy, AppHandler, health, app, routes, app_routes}
use pok.Web.Mux.{Answer, handled, redirect, not_found, serve}

-- The three upstreams of edge.
pub data Upstream : Type 0 where
  wsfeed : Upstream
  helloworld : Upstream
  static_files : Upstream

abbrev pub deployed : Map Bytes (Handler Upstream)
deployed =
    routes (λ raw. none) (record { upstream = wsfeed; traced = false })
      (record { upstream = helloworld; traced = true })
      (record { upstream = static_files; traced = true })

abbrev pub is_helloworld : Upstream → Bool
is_helloworld wsfeed = false
is_helloworld helloworld = true
is_helloworld static_files = false

-- Edge proxies the request to helloworld.
abbrev pub goes_to_helloworld : Answer (Handler Upstream) → Bool
goes_to_helloworld (handled ok) = false
goes_to_helloworld (handled (proxy p)) = is_helloworld p.upstream
goes_to_helloworld (redirect q) = false
goes_to_helloworld not_found = false

-- helloworld greets, and logs the visit.
abbrev pub is_greeted : Answer AppHandler → Bool
is_greeted (handled health) = false
is_greeted (handled app) = true
is_greeted (redirect q) = false
is_greeted not_found = false

-- The requests that reach the handler of helloworld, with the path that the browser asked for.
unfoldable pub greeted : List Visit → List Visit
greeted [] = []
greeted (v ∷ asked) =
    let rest = greeted asked in
    if goes_to_helloworld (serve deployed v.path) && is_greeted (serve app_routes v.path)
    then v ∷ rest
    else rest

-- A clean path at or below /hw.
abbrev pub is_page : Bytes → Bool
is_page path = clean_path path == path && (path == bytes "/hw" || has_prefix path (bytes "/hw/"))

pages_only :
    (path : Bytes)
    → (goes_to_helloworld (serve deployed path) && is_greeted (serve app_routes path))
      ≡ is_page path
pages_only path =
    rw (serve-target_of (λ raw. none) _ _ _ path, serve-app_routes path)
      (elim (Bool-cases (path == bytes "/healthz")) [
        | inl e ↦
            rw ((eq_iff path (bytes "/healthz")).0 e)
              (unfold clean_path has_prefix bytes_beq in refl)
        | inr a ↦ elim (Bool-cases (path == bytes "/ws")) [
          | inl e ↦
              rw ((eq_iff path (bytes "/ws")).0 e) (unfold clean_path has_prefix bytes_beq in refl)
          | inr b ↦ ground (arith, a, b)
        ]
      ])

greeted_step :
    (v : Visit) (asked : List Visit)
    → greeted (v ∷ asked) ≡ (if is_page v.path then v ∷ greeted asked else greeted asked)
unfolding greeted
greeted_step v asked = rw (pages_only v.path)

greeted-HasSlash : (asked : List Visit) → All (λ v. HasSlash v.path) (greeted asked)
greeted-HasSlash [] = unfold greeted in tt
greeted-HasSlash (v ∷ asked) = rw (greeted_step v asked) (elim (Bool-cases (is_page v.path)) [
  | inl e ↦ rw (e, All) (clean_head v.path (ground (arith, e)), greeted-HasSlash asked)
  | inr e ↦ rw e (greeted-HasSlash asked)
])
  where
    clean_head : (path : Bytes) → (clean_path path == path) ≡ true → HasSlash path
    clean_head path e = subst HasSlash ((eq_iff (clean_path path) path).0 e) (clean_path_head path)

requests-greeted :
    (u : Bytes) (asked : List Visit)
    → requests u (greeted asked) ≡ (if is_page u then requests u asked else 0)
unfolding requests
requests-greeted u [] = unfold greeted in ground arith
requests-greeted u (v ∷ asked) = rw (greeted_step v asked) (elim (Bool-cases (is_page v.path)) [
  | inl e ↦ rw e (ground (arith, e, requests-greeted u asked, eq_iff v.path u))
  | inr e ↦ rw e (ground (arith, e, requests-greeted u asked, eq_iff v.path u))
])

module _ (valid : Bytes → Bool) (encode : Count → Bytes)
    (encodes : (c : Count) → valid (encode c) ≡ true) (event url_field : Bytes → Bytes)
    (asked : List Visit) (ranged : AllRanged url_field (logged event (greeted asked)) new_counter)
    (replayed : (run url_field (logged event (greeted asked)) new_counter).0.replaying
      ≡ false) where
  -- Let browsers ask edge for any paths, let visitcounter read the events of all that helloworld
  -- answers until its replay is over, and let wsfeed, from an empty hub on, read what a compacted
  -- topic delivers of the counts written. Then for each path of at most 256 bytes that begins with a
  -- slash, the hub holds under the path's subject the number of the requests for it that count,
  -- modulo 2^64: all that browsers made if it is a page, that is clean and at or below /hw, and none
  -- otherwise. Or it holds nothing, and then that number is 0, or visitcounter had given all its 512
  -- slots to other pages.
  pub edge-shown :
      (path : Bytes) (reads : List (Read Consume.Moment)) (n : ℕ)
      → length path < 256
      → Delivers
          (λ (c : Count). c.url)
          encode
          (run url_field (logged event (greeted asked)) new_counter).1
          reads
      → IsShownAs encode
          (b'/' ∷ path)
          (if is_page (b'/' ∷ path) then requests (b'/' ∷ path) asked else 0)
          (length (run url_field (logged event (greeted asked)) new_counter).0.counts)
          (lookup
            (visit_subject (b'/' ∷ path))
            (consume_visit_counts valid reads (new_hub n)).state)
  edge-shown path reads n short d = rw (← requests-greeted (b'/' ∷ path) asked) (
      served-shown valid encode encodes event url_field (greeted asked) (greeted-HasSlash asked)
        ranged replayed path reads n short d)
