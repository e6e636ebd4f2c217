-- ===== src/Web/Mux.antt =====
-- ServeMux of net/http, for patterns that are plain paths: a pattern that ends in a slash stands for
-- all paths that it begins, any other for itself, and the longest that fits wins. The request "*",
-- which net/http refuses with 400 before it looks up a handler, is left out.
pub mod Settled
pub mod Exact
use pok.Cluster.Versions.{has_prefix}
use pok.Prelude.Bytes.{Bytes, bytes, bytes_key}
use pok.Prelude.Lists.{length}
use pok.Prelude.Maps.{Map}
use pok.Prelude.Tests.{◌==◌, ltb, if◌then◌else◌}
use pok.Prelude.{Bool, true, false, ◌&&◌, ◌||◌, not, Option, none, some, List, [], ◌∷◌, ◌++◌}
use pok.Web.Clean.{clean_path, ends_in_slash}

unfoldable pub fits : Bytes → Bytes → Bool
fits pattern path = pattern == path || (ends_in_slash pattern && has_prefix path pattern)

-- What ServeMux answers with: a handler, 301 to another path, or 404.
pub data Answer {ℓ} (Handler : Type ℓ) : Type ℓ where
  handled : Handler → Answer Handler
  redirect : Bytes → Answer Handler
  not_found : Answer Handler

module _ {ℓ} {Handler : Type ℓ} where
  abbrev pub longer : Bytes × Handler → Option (Bytes × Handler) → Option (Bytes × Handler)
  longer entry none = some entry
  longer (pattern, h) (some (other, g)) =
      if ltb (length pattern) (length other) then some (other, g) else some (pattern, h)

  unfoldable pub find : Map Bytes Handler → Bytes → Option (Bytes × Handler)
  unfolding fits
  find [] path = none
  find ((pattern, h) ∷ mux) path =
      let rest = find mux path in if fits pattern path then longer (pattern, h) rest else rest

  abbrev pub is_exact : Bytes → Option (Bytes × Handler) → Bool
  is_exact path none = false
  is_exact path (some (pattern, h)) = pattern == path

  abbrev pub handler_of : Option (Bytes × Handler) → Answer Handler
  handler_of none = not_found
  handler_of (some (pattern, h)) = handled h

  -- A path is redirected to the pattern that has a slash after it, or to its clean form.
  unfoldable pub serve : Map Bytes Handler → Bytes → Answer Handler
  unfolding find clean_path ends_in_slash
  serve mux path =
      let cleaned = clean_path path in
      let slashed = cleaned ++ bytes "/" in
      if not (is_exact cleaned (find mux cleaned))
        && not (ends_in_slash cleaned)
        && is_exact slashed (find mux slashed)
      then redirect slashed
      else if not (cleaned == path)
      then redirect cleaned
      else handler_of (find mux cleaned)
