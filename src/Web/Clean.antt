-- ===== src/Web/Clean.antt =====
-- `cleanPath` of net/http: the path that ServeMux looks up.
pub mod Segments
pub mod Idempotent
use pok.Prelude.Bytes.{Bytes, bytes, bytes_key}
use pok.Prelude.Tests.{◌==◌, nat_beq, if◌then◌else◌}
use pok.Prelude.{Bool, true, false, ◌||◌, List, [], ◌∷◌, ◌++◌, ℕ}

-- A byte at the front of the first segment.
unfoldable pub cons_byte : ℕ → List Bytes → List Bytes
cons_byte c [] = (c ∷ []) ∷ []
cons_byte c (seg ∷ segs) = (c ∷ seg) ∷ segs

-- The parts between slashes.
unfoldable pub split_slash : Bytes → List Bytes
unfolding cons_byte
split_slash [] = [] ∷ []
split_slash (c ∷ s) =
    let rest = split_slash s in if nat_beq c b'/' then [] ∷ rest else cons_byte c rest

abbrev pub drop_last : List Bytes → List Bytes
drop_last [] = []
drop_last (seg ∷ []) = []
drop_last (seg ∷ (seg' ∷ segs)) = seg ∷ drop_last (seg' ∷ segs)

-- What path.Clean makes of a rooted path: empty parts and "." go, and ".." takes the part before it.
unfoldable pub resolve : List Bytes → List Bytes → List Bytes
resolve kept [] = kept
resolve kept (seg ∷ segs) =
    resolve
      (if seg == [] || seg == bytes "."
        then kept
        else if seg == bytes ".."
        then drop_last kept
        else kept ++ seg ∷ [])
      segs

unfoldable pub rooted : List Bytes → Bytes
rooted [] = []
rooted (seg ∷ segs) = b'/' ∷ (seg ++ rooted segs)

unfoldable pub ends_in_slash : Bytes → Bool
ends_in_slash [] = false
ends_in_slash (c ∷ []) = nat_beq c b'/'
ends_in_slash (c ∷ (d ∷ s)) = ends_in_slash (d ∷ s)

unfoldable pub with_slash : Bool → List Bytes → Bytes
unfolding rooted
with_slash slash [] = bytes "/"
with_slash slash (seg ∷ segs) = rooted (seg ∷ segs) ++ (if slash then bytes "/" else [])

unfoldable pub clean_path : Bytes → Bytes
unfolding split_slash resolve ends_in_slash with_slash
clean_path p = with_slash (ends_in_slash p) (resolve [] (split_slash p))
