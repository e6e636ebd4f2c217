-- ===== src/Web/Mux/Settled.antt =====
-- A redirect of a ServeMux leads to a path that it does not redirect again.
use pok.Prelude.Bytes.{Bytes, bytes, bytes_key}
use pok.Prelude.Maps.{Map}
use pok.Prelude.Tests.{◌==◌, eq_iff, eq_refl, if◌then◌else◌, Bool-cases}
use pok.Prelude.{◌≡◌, ◌⊎◌, ◌∙◌, refl, inl, inr, Bool, true, false, ◌&&◌, not, ◌++◌, arith}
use pok.Web.Clean.Idempotent.{clean_path-idempotent, clean_path_slashed}
use pok.Web.Clean.{clean_path, ends_in_slash}
use pok.Web.Mux.{redirect, find, is_exact, handler_of, serve}

module _ {Handler : Type 0} (mux : Map Bytes Handler) (path : Bytes) where
  abbrev cleaned : Bytes
  cleaned = clean_path path

  abbrev slashed : Bytes
  slashed = cleaned ++ bytes "/"

  -- ServeMux sends the client to the pattern that has a slash after the path.
  abbrev pub lacks_slash : Bool
  lacks_slash =
      not (is_exact cleaned (find mux cleaned))
      && not (ends_in_slash cleaned)
      && is_exact slashed (find mux slashed)

  pub serve_lem : serve mux path ≡ (
      if lacks_slash
      then redirect slashed
      else if not (cleaned == path)
      then redirect cleaned
      else handler_of (find mux cleaned))
  unfolding serve
  serve_lem = refl

module _ {Handler : Type 0} (mux : Map Bytes Handler) (path : Bytes) where
  serve_slashed :
      lacks_slash mux path ≡ true
      → serve mux (clean_path path ++ bytes "/")
        ≡ handler_of (find mux (clean_path path ++ bytes "/"))
  serve_slashed h =
      serve_lem mux (clean_path path ++ bytes "/")
      ∙ rw (clean_path_slashed path (ground (arith, h)))
          (ground (arith, h, eq_refl (clean_path path ++ bytes "/")))

  serve_cleaned :
      lacks_slash mux path ≡ false
      → serve mux (clean_path path) ≡ handler_of (find mux (clean_path path))
  serve_cleaned h =
      serve_lem mux (clean_path path)
      ∙ rw (clean_path-idempotent path) (ground (arith, h, eq_refl (clean_path path)))

  -- A client that follows redirects is answered, by the longest pattern that fits or by 404, after
  -- one redirect at most.
  pub serve-settled :
      (q : Bytes) × ((q ≡ path) ⊎ (serve mux path ≡ redirect q))
      × (serve mux q ≡ handler_of (find mux q))
  serve-settled = elim (Bool-cases (lacks_slash mux path)) [
    | inl h ↦ (clean_path path ++ bytes "/", inr (serve_lem mux path ∙ rw h), serve_slashed h)
    | inr h ↦ (
      clean_path path,
      elim (Bool-cases (clean_path path == path)) [
        | inl e ↦ inl ((eq_iff (clean_path path) path).0 e)
        | inr e ↦ inr (serve_lem mux path ∙ rw h (rw e))
      ],
      serve_cleaned h,
    )
  ]
