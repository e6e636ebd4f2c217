-- ===== src/Web/Clean/Segments.antt =====
-- The segments of a clean path are found again in it.
use pok.Prelude.Bytes.{Bytes, bytes, bytes_key}
use pok.Prelude.Lists.{All, All-append, contains}
use pok.Prelude.Tests.{◌==◌, nat_beq, nat_key, Bool-cases}
use pok.Prelude.{ℕ, ◌≡◌, refl, inl, inr, false, ◌||◌, List, [], ◌∷◌, ◌++◌, arith}
use pok.Web.Clean.{cons_byte, split_slash, drop_last, resolve}

-- A segment that `resolve` keeps.
pub record IsProper (seg : Bytes) : Type 0 where
  pub whole : contains b'/' seg ≡ false
  pub named : (seg == [] || seg == bytes ".") ≡ false
  pub forward : (seg == bytes "..") ≡ false

abbrev pub IsWhole : Bytes → Type 0
IsWhole seg = contains b'/' seg ≡ false

pub split_slash_whole : (seg : Bytes) → IsWhole seg → split_slash seg ≡ seg ∷ []
unfolding contains split_slash
split_slash_whole [] h = refl
split_slash_whole (c ∷ seg) h = ground (arith, split_slash_whole seg)

pub split_slash-append :
    (seg rest : Bytes) → IsWhole seg → split_slash (seg ++ b'/' ∷ rest) ≡ seg ∷ split_slash rest
unfolding contains split_slash
split_slash-append [] rest h = refl
split_slash-append (c ∷ seg) rest h = ground (arith, split_slash-append seg rest)

All-cons_byte :
    (c : ℕ) (segs : List Bytes)
    → nat_beq c b'/' ≡ false
    → All IsWhole segs
    → All IsWhole (cons_byte c segs)
unfolding cons_byte contains
All-cons_byte c [] h a = (rw h, tt)
All-cons_byte c (seg ∷ segs) h a = (ground (arith, h, a.0), a.1)

pub split_slash-All : (s : Bytes) → All IsWhole (split_slash s)
unfolding split_slash
split_slash-All [] = (unfold contains in refl, tt)
split_slash-All (c ∷ s) = elim (Bool-cases (nat_beq c b'/')) [
  | inl e ↦ rw (e, All) (unfold contains in refl, split_slash-All s)
  | inr e ↦ rw e (All-cons_byte c (split_slash s) e (split_slash-All s))
]

drop_last-All : (kept : List Bytes) → All IsProper kept → All IsProper (drop_last kept)
drop_last-All [] a = tt
drop_last-All (seg ∷ []) a = tt
drop_last-All (seg ∷ (seg' ∷ segs)) a = (a.0, drop_last-All (seg' ∷ segs) a.1)

pub resolve-All :
    (kept segs : List Bytes)
    → All IsProper kept
    → All IsWhole segs
    → All IsProper (resolve kept segs)
unfolding resolve
resolve-All kept [] a w = a
resolve-All kept (seg ∷ segs) a w = elim (Bool-cases (seg == [] || seg == bytes ".")) [
  | inl e ↦ rw e (resolve-All kept segs a w.1)
  | inr e ↦ elim (Bool-cases (seg == bytes "..")) [
    | inl up ↦ rw e (rw up (resolve-All (drop_last kept) segs (drop_last-All kept a) w.1))
    | inr on ↦ rw e (
        rw on (
          resolve-All (kept ++ seg ∷ []) segs
            (All-append IsProper kept (seg ∷ []) a
              (record { whole = w.0; named = e; forward = on }, tt))
            w.1))
  ]
]
