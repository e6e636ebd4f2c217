-- ===== src/Web/Mux/Exact.antt =====
-- Which patterns are found exactly.
use mathlib.Core.List.{append_cancel_right}
use pok.Cluster.Versions.{has_prefix}
use pok.Prelude.Bytes.{Bytes, bytes, bytes_key}
use pok.Prelude.Lists.{head_or, contains}
use pok.Prelude.Maps.{Map, keys}
use pok.Prelude.Tests.{◌==◌, eq_iff, Bool-cases, Option-cases}
use pok.Prelude.{◌≡◌, ◌≢◌, ap, inl, inr, true, false, [], ◌∷◌, ◌++◌, arith, refl}
use pok.Web.Clean.Idempotent.{ends_in_slash-append}
use pok.Web.Clean.{ends_in_slash}
use pok.Web.Mux.{find, is_exact}

pub eq_sym : (p q : Bytes) → (q == p) ≡ (p == q)
eq_sym p q = ground (arith, eq_iff p q, eq_iff q p)

-- A pattern that is found exactly is a registered one.
pub is_exact-contains :
    {H : Type 0} (mux : Map Bytes H) (path : Bytes)
    → is_exact path (find mux path) ≡ true
    → contains path (keys mux) ≡ true
unfolding find contains
is_exact-contains [] path h = ground arith
is_exact-contains ((pattern, g) ∷ mux) path h = elim (Option-cases (find mux path)) [
  | inl e ↦ ground (arith, h, e)
  | inr ((other, f), e) ↦ ground (arith, h, e, is_exact-contains mux path)
]

pub slashed_ne : (c p : Bytes) → ends_in_slash p ≡ false → (p == c ++ bytes "/") ≡ false
slashed_ne c p h = elim (Bool-cases (p == c ++ bytes "/")) [
  | inr e ↦ e
  | inl e ↦ cc (
    h,
    ap ends_in_slash ((eq_iff p (c ++ bytes "/")).0 e),
    ends_in_slash-append c b'/' [],
    slash_ends,
  )
]
  where
    slash_ends : ends_in_slash (bytes "/") ≡ true
    slash_ends = unfold ends_in_slash in refl

pub unslash_root : (c : Bytes) → head_or 0 c ≡ b'/' → bytes "/" ≢ c ++ bytes "/"
unslash_root c h p =
    absurd (omega (arith, h, ap (head_or 0) (append_cancel_right [] c (bytes "/") p)))

pub has_prefix_slash : (path : Bytes) → head_or 0 path ≡ b'/' → has_prefix path (bytes "/") ≡ true
unfolding has_prefix
has_prefix_slash [] h = absurd (omega arith)
has_prefix_slash (c ∷ s) h = ground arith
