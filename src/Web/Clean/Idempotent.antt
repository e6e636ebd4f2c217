-- ===== src/Web/Clean/Idempotent.antt =====
-- A clean path is its own clean path.
use mathlib.Core.List.{append-nil, append_assoc}
use pok.Prelude.Bytes.{Bytes, bytes, bytes_key, bytes_beq}
use pok.Prelude.Lists.{All, contains, head_or}
use pok.Prelude.Tests.{nat_key, if◌then◌else◌}
use pok.Prelude.{ℕ, ◌≡◌, refl, ap, ◌∙◌, Bool, true, false, List, [], ◌∷◌, ◌++◌, arith}
use pok.Web.Clean.Segments.{
  IsProper, IsWhole, split_slash_whole, split_slash-append, split_slash-All, resolve-All,
}
use pok.Web.Clean.{split_slash, resolve, rooted, ends_in_slash, with_slash, clean_path}

-- The slash at the end, and the empty segment behind it.
abbrev slash_if : Bool → Bytes
slash_if slash = if slash then bytes "/" else []

abbrev segment_if : Bool → List Bytes
segment_if slash = if slash then [] ∷ [] else []

split_slash-seg :
    (slash : Bool) (seg : Bytes) (segs : List Bytes)
    → All IsProper (seg ∷ segs)
    → split_slash (seg ++ (rooted segs ++ slash_if slash)) ≡ seg ∷ (segs ++ segment_if slash)
unfolding rooted
split_slash-seg false seg [] a = rw (append-nil seg) (split_slash_whole seg a.0.whole)
split_slash-seg true seg [] a = split_slash-append seg [] a.0.whole ∙ unfold split_slash in refl
split_slash-seg slash seg (s ∷ segs) a = rw (append_assoc s (rooted segs) (slash_if slash)) (
    split_slash-append seg (s ++ (rooted segs ++ slash_if slash)) a.0.whole
    ∙ ap (λ l. seg ∷ l) (split_slash-seg slash s segs a.1))

resolve_step :
    (kept : List Bytes) (seg : Bytes) (segs : List Bytes)
    → IsProper seg
    → resolve kept (seg ∷ segs) ≡ resolve (kept ++ seg ∷ []) segs
unfolding resolve
resolve_step kept seg segs p = rw (p.named, resolve) (rw p.forward)

split_slash_rooted : (s : Bytes) → split_slash (b'/' ∷ s) ≡ [] ∷ split_slash s
unfolding split_slash
split_slash_rooted s = refl

resolve_empty : (segs : List Bytes) → resolve [] ([] ∷ segs) ≡ resolve [] segs
unfolding resolve bytes_beq
resolve_empty segs = refl

resolve_proper :
    (slash : Bool) (kept segs : List Bytes)
    → All IsProper segs
    → resolve kept (segs ++ segment_if slash) ≡ kept ++ segs
resolve_proper false kept [] a = rw (append-nil kept) (unfold resolve in refl)
resolve_proper true kept [] a = rw (append-nil kept) (unfold resolve bytes_beq in refl)
resolve_proper slash kept (seg ∷ segs) a =
    resolve_step kept seg (segs ++ segment_if slash) a.0
    ∙ resolve_proper slash (kept ++ seg ∷ []) segs a.1
    ∙ append_assoc kept (seg ∷ []) segs

pub ends_in_slash-append :
    (xs : Bytes) (y : ℕ) (ys : Bytes) → ends_in_slash (xs ++ y ∷ ys) ≡ ends_in_slash (y ∷ ys)
unfolding ends_in_slash
ends_in_slash-append [] y ys = refl
ends_in_slash-append (x ∷ []) y ys = refl
ends_in_slash-append (x ∷ (x' ∷ xs)) y ys = ends_in_slash-append (x' ∷ xs) y ys

ends_in_slash_whole : (seg : Bytes) → IsWhole seg → ends_in_slash seg ≡ false
unfolding ends_in_slash contains
ends_in_slash_whole [] w = refl
ends_in_slash_whole (c ∷ []) w = ground arith
ends_in_slash_whole (c ∷ (d ∷ seg)) w = ends_in_slash_whole (d ∷ seg) (ground arith)

ends_in_slash-rooted :
    (slash : Bool) (seg : Bytes) (segs : List Bytes)
    → All IsProper (seg ∷ segs)
    → ends_in_slash (b'/' ∷ (seg ++ (rooted segs ++ slash_if slash))) ≡ slash
unfolding rooted
ends_in_slash-rooted false [] [] a = unfold bytes_beq in cc (a.0.named)
ends_in_slash-rooted false (c ∷ seg) [] a =
    rw (append-nil seg) (unfold ends_in_slash in ends_in_slash_whole (c ∷ seg) a.0.whole)
ends_in_slash-rooted true seg [] a =
    ends_in_slash-append (b'/' ∷ seg) b'/' [] ∙ unfold ends_in_slash in refl
ends_in_slash-rooted slash seg (s ∷ segs) a = rw (append_assoc s (rooted segs) (slash_if slash)) (
    ends_in_slash-append (b'/' ∷ seg) b'/' (s ++ (rooted segs ++ slash_if slash))
    ∙ ends_in_slash-rooted slash s segs a.1)

clean_path_lem :
    (p : Bytes) → clean_path p ≡ with_slash (ends_in_slash p) (resolve [] (split_slash p))
unfolding clean_path
clean_path_lem p = refl

with_slash_cons :
    (slash : Bool) (seg : Bytes) (segs : List Bytes)
    → with_slash slash (seg ∷ segs) ≡ b'/' ∷ (seg ++ (rooted segs ++ slash_if slash))
unfolding with_slash rooted
with_slash_cons slash seg segs =
    ap (λ t. b'/' ∷ t) (append_assoc seg (rooted segs) (slash_if slash))

segments_again :
    (slash : Bool) (seg : Bytes) (segs : List Bytes)
    → All IsProper (seg ∷ segs)
    → resolve [] (split_slash (b'/' ∷ (seg ++ (rooted segs ++ slash_if slash)))) ≡ seg ∷ segs
segments_again slash seg segs a =
    ap (resolve []) (split_slash_rooted (seg ++ (rooted segs ++ slash_if slash)))
    ∙ resolve_empty (split_slash (seg ++ (rooted segs ++ slash_if slash)))
    ∙ ap (resolve []) (split_slash-seg slash seg segs a)
    ∙ resolve_proper slash [] (seg ∷ segs) a

with_slash_again :
    (slash : Bool) (kept : List Bytes)
    → All IsProper kept
    → clean_path (with_slash slash kept) ≡ with_slash slash kept
with_slash_again slash [] a = unfold clean_path bytes_beq in refl
with_slash_again slash (seg ∷ segs) a = rw (with_slash_cons slash seg segs) (
    clean_path_lem (b'/' ∷ (seg ++ (rooted segs ++ slash_if slash)))
    ∙ rw (segments_again slash seg segs a, ends_in_slash-rooted slash seg segs a)
        (with_slash_cons slash seg segs))

-- Cleaning a path twice is cleaning it once.
pub clean_path-idempotent : (p : Bytes) → clean_path (clean_path p) ≡ clean_path p
clean_path-idempotent p = rw (clean_path_lem p) (
    with_slash_again (ends_in_slash p) (resolve [] (split_slash p))
      (resolve-All [] (split_slash p) tt (split_slash-All p)))

slash_after :
    (slash : Bool) (kept : List Bytes)
    → All IsProper kept
    → ends_in_slash (with_slash slash kept) ≡ false
    → clean_path (with_slash slash kept ++ bytes "/") ≡ with_slash slash kept ++ bytes "/"
slash_after slash [] a h = unfold with_slash ends_in_slash in cc
slash_after true (seg ∷ segs) a h =
    cc (h, ap ends_in_slash (with_slash_cons true seg segs), ends_in_slash-rooted true seg segs a)
slash_after false (seg ∷ segs) a h =
    rw (longer_by_slash seg segs) (with_slash_again true (seg ∷ segs) a)
  where
    longer_by_slash :
        (seg : Bytes) (segs : List Bytes)
        → with_slash false (seg ∷ segs) ++ bytes "/" ≡ with_slash true (seg ∷ segs)
    longer_by_slash seg segs =
        rw (with_slash_cons false seg segs, with_slash_cons true seg segs)
          (simp (append-nil, append_assoc))

-- With a slash after it a clean path is clean, unless it has one.
pub clean_path_slashed :
    (p : Bytes)
    → ends_in_slash (clean_path p) ≡ false
    → clean_path (clean_path p ++ bytes "/") ≡ clean_path p ++ bytes "/"
clean_path_slashed p = rw (clean_path_lem p) (
    slash_after (ends_in_slash p) (resolve [] (split_slash p))
      (resolve-All [] (split_slash p) tt (split_slash-All p)))

with_slash_head : (slash : Bool) (kept : List Bytes) → head_or 0 (with_slash slash kept) ≡ b'/'
unfolding with_slash rooted
with_slash_head slash [] = refl
with_slash_head slash (seg ∷ segs) = refl

pub clean_path_head : (p : Bytes) → head_or 0 (clean_path p) ≡ b'/'
clean_path_head p =
    rw (clean_path_lem p) (with_slash_head (ends_in_slash p) (resolve [] (split_slash p)))
