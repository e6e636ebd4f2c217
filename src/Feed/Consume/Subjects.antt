-- ===== src/Feed/Consume/Subjects.antt =====
-- Which messages share a subject.
use pok.Feed.Consume.{cluster_subject, visit_subject, trim_slash}
use pok.Prelude.Bytes.{Bytes, bytes, bytes_key}
use pok.Prelude.Lists.{append-cancel_left, head_or}
use pok.Prelude.Tests.{◌==◌, eq_iff, nat_beq, Bool-cases, if◌then◌else◌}
use pok.Prelude.{ℕ, ◌≡◌, ◌≢◌, ◌↔◌, ◌⊎◌, inl, inr, refl, ap, [], ◌∷◌, arith}

-- The two feeds never write to one another's subjects.
pub cluster_subject-ne-visit_subject :
    (aspect url : Bytes) → cluster_subject aspect ≢ visit_subject url
unfolding cluster_subject visit_subject
cluster_subject-ne-visit_subject aspect url p = absurd (omega (arith, ap (head_or 0) p))

-- Two aspects share a subject only if one of them is empty, which is shown as "unknown".
pub cluster_subject-injective :
    (a b : Bytes) → a ≢ [] → a ≢ bytes "unknown" → (cluster_subject b ≡ cluster_subject a) ↔ (b ≡ a)
unfolding cluster_subject
cluster_subject-injective a b ne nu =
    (λ p. same (append-cancel_left (bytes "cluster/") p), λ p. rw p)
  where
    same :
        (if b == [] then bytes "unknown" else b) ≡ (if a == [] then bytes "unknown" else a) → b ≡ a
    same p = ground (arith, eq_iff a [], eq_iff b [])

-- URLs that begin with a slash share a subject only if they are the same.
pub visit_subject-injective :
    (p q : Bytes) → (visit_subject (b'/' ∷ p) ≡ visit_subject (b'/' ∷ q)) ↔ (p ≡ q)
unfolding visit_subject
visit_subject-injective p q = (append-cancel_left (bytes "visit/"), λ e. rw e)

-- `b` has no slash in front, and `a` is `b` with one.
abbrev pub IsSlashed : Bytes → Bytes → Type 0
IsSlashed a b = (a ≡ b'/' ∷ b) × (head_or 0 b ≢ b'/')

trim_slash_cons : (c : ℕ) (s : Bytes) → trim_slash (c ∷ s) ≡ (if nat_beq c b'/' then s else c ∷ s)
unfolding trim_slash
trim_slash_cons c s = refl

trim_slash-IsSlashed : (a b : Bytes) → IsSlashed a b → trim_slash a ≡ trim_slash b
unfolding trim_slash
trim_slash-IsSlashed a [] h = rw h.0 refl
trim_slash-IsSlashed a (d ∷ t) h = rw h.0 (ground (arith, h.1))

trim_slash_inverse :
    (a b : Bytes) → trim_slash a ≡ trim_slash b → (a ≡ b) ⊎ (IsSlashed a b ⊎ IsSlashed b a)
unfolding trim_slash
trim_slash_inverse [] [] p = inl refl
trim_slash_inverse [] (d ∷ t) p = elim (Bool-cases (nat_beq d b'/')) [
  | inl e ↦ ground (arith, e, p)
  | inr e ↦ ground (arith, e, p)
]
trim_slash_inverse (c ∷ s) b p = ground (arith, p)

-- Two URLs share a subject exactly if they are the same, or one of them begins with no slash and the
-- other is that one with a slash in front.
pub visit_subject-shared :
    (a b : Bytes)
    → (visit_subject a ≡ visit_subject b) ↔ ((a ≡ b) ⊎ (IsSlashed a b ⊎ IsSlashed b a))
unfolding visit_subject
visit_subject-shared a b = (
  λ p. trim_slash_inverse a b (append-cancel_left (bytes "visit/") p),
  λ h. elim h [
    | inl e ↦ rw e
    | inr k ↦ elim k [
      | inl s ↦ rw (trim_slash-IsSlashed a b s)
      | inr s ↦ rw (trim_slash-IsSlashed b a s)
    ]
  ],
)
