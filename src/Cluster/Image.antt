-- ===== src/Cluster/Image.antt =====
-- Image references: `splitImage` of apps/clusterinfo/main.go.
pub mod Parts
mod Tests
use pok.Cluster.Text.{take, drop, index_byte, last_index_byte}
use pok.Prelude.Bytes.{Bytes}
use pok.Prelude.{ℕ, suc, Option, none, some, []}

-- if i := strings.Index(ref, "@"); i >= 0 { ref = ref[:i] }
unfoldable pub without_digest : Bytes → Bytes
without_digest ref = elim (index_byte 64 ref) [ none ↦ ref | some i ↦ take i ref ]

-- if i := strings.LastIndex(ref, "/"); i >= 0 { name = ref[i+1:] }
unfoldable pub last_element : Bytes → Bytes
last_element ref = elim (last_index_byte 47 ref) [ none ↦ ref | some i ↦ drop (suc i) ref ]

-- The name and the tag around the first ":", or the name and "".
unfoldable pub split_tag : Bytes → Bytes × Bytes
split_tag name = elim (index_byte 58 name) [
  | none ↦ (name, [])
  | some i ↦ (take i name, drop (suc i) name)
]

unfoldable pub split_image : Bytes → Bytes × Bytes
unfolding without_digest last_element split_tag
split_image ref = split_tag (last_element (without_digest ref))
