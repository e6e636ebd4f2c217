-- ===== src/Visits/Shown.antt =====
-- One round of the loop keeps the published counts in step with the counters.
use mathlib.Core.List.{append-nil}
use pok.Kafka.{Message}
use pok.Prelude.Bytes.{Bytes, bytes_key}
use pok.Prelude.Int.{pos, is_nonpos}
use pok.Prelude.Lists.{contains, contains-snoc}
use pok.Prelude.Maps.{IsRange, has, index, lookup-insert, has-insert, index_of_lookup}
use pok.Prelude.Tests.{◌==◌, eq_iff, Bool-cases, if◌then◌else◌}
use pok.Prelude.{
  ◌≡◌, inl, inr, refl, ◌∙◌, true, false, Option, none, some, List, [], ◌∷◌, ◌++◌, map, arith,
}
use pok.Visits.{
  Moment, Counter, Count, publish, add_dirty, increment, stamp, count_visit, announce, url_of,
  is_counted, step,
}

-- What a reader of the compacted topic keeps for a URL: the last message under its key.
unfoldable pub last_count : Bytes → List Count → Option Count
last_count u [] = none
last_count u (c ∷ cs) = elim (last_count u cs) [
  | some x ↦ some x
  | none ↦ if c.url == u then some c else none
]

abbrev or_count : Option Count → Option Count → Option Count
or_count none b = b
or_count (some a) b = some a

last_count-append :
    (u : Bytes) (xs ys : List Count)
    → last_count u (xs ++ ys) ≡ or_count (last_count u ys) (last_count u xs)
unfolding last_count
last_count-append u [] ys = ground arith
last_count-append u (x ∷ xs) ys = ground (arith, last_count-append u xs ys)

last_count-map :
    (u : Bytes) (s : Counter) (order : List Bytes)
    → last_count u (map (publish s) order) ≡ (if contains u order then some (publish s u) else none)
unfolding last_count contains publish
last_count-map u s [] = refl
last_count-map u s (v ∷ order) = ground (arith, eq_iff v u, last_count-map u s order)

-- The published counts show the counters, or the replay is silent and knows what it touched.
pub record IsShown (out : List Count) (s : Counter) : Type 0 where
  pub silent : s.replaying ≡ true → out ≡ []
  pub touched : s.replaying ≡ true → (u : Bytes) → contains u s.dirty ≡ has u s.counts
  pub shown :
      s.replaying ≡ false
      → (u : Bytes) → last_count u out ≡ (if has u s.counts then some (publish s u) else none)

-- If the replay ends at this message, the order is one in which `range` visits the touched URLs.
abbrev pub IsRanged : Bytes → Moment → Counter → Type 0
IsRanged url at s =
    s.replaying ≡ true
    → is_nonpos at.lag ≡ true
    → IsRange (λ u. contains u (add_dirty url s.dirty)) at.order

contains-add_dirty :
    (u url : Bytes) (dirty : List Bytes)
    → contains u (add_dirty url dirty) ≡ (if url == u then true else contains u dirty)
unfolding add_dirty
contains-add_dirty u url dirty = ground (arith, eq_iff url u, contains-snoc u url dirty)

module _ (url : Bytes) (at : Moment) (s : Counter) where
  announce_live : s.replaying ≡ false → announce url at s ≡ (s, publish s url ∷ [])
  unfolding announce
  announce_live live = rw live

  announce_lagging :
      s.replaying ≡ true
      → is_nonpos at.lag ≡ false
      → announce url at s ≡ (record s { dirty = add_dirty url s.dirty }, [])
  unfolding announce
  announce_lagging replay lags = rw replay (rw lags)

  announce_flushed :
      s.replaying ≡ true
      → is_nonpos at.lag ≡ true
      → announce url at s ≡ (
        record s { replaying = false; dirty = [] },
        map (publish (record s { dirty = add_dirty url s.dirty })) at.order,
      )
  unfolding announce
  announce_flushed replay done = rw replay (rw done)

module _ (url_field : Bytes → Bytes) (m : Message) (at : Moment) (s : Counter) (out : List Count)
    (sh : IsShown out s) (r : IsRanged (url_of url_field m) at s) where
  abbrev url : Bytes
  url = url_of url_field m

  -- The counter with the visit counted.
  abbrev counted : Counter
  counted = count_visit url (stamp m at) s

  replaying-counted : counted.replaying ≡ s.replaying
  unfolding count_visit
  replaying-counted = refl

  has-counted : (u : Bytes) → has u counted.counts ≡ (if url == u then true else has u s.counts)
  unfolding count_visit
  has-counted u = has-insert url u (increment (index 0 url s.counts)) s.counts

  -- Counting a visit changes what is published for its own URL only.
  publish-counted : (u : Bytes) → (url == u) ≡ false → publish counted u ≡ publish s u
  unfolding publish count_visit
  publish-counted u ne = ground (
    arith,
    index_of_lookup 0 u s.counts,
    index_of_lookup 0 u counted.counts,
    index_of_lookup (pos 0) u s.last,
    index_of_lookup (pos 0) u counted.last,
    lookup-insert url u (increment (index 0 url s.counts)) s.counts,
    lookup-insert url u (stamp m at) s.last,
  )

  url-publish : (c : Counter) → (publish c url).url ≡ url
  unfolding publish
  url-publish c = refl

  live-IsShown : s.replaying ≡ false → IsShown (out ++ publish counted url ∷ []) counted
  unfolding last_count
  live-IsShown live = record {
    silent = unfold count_visit in λ h. cc;
    touched = unfold count_visit in λ h. cc;
    shown = λ _ u. ground (
      arith,
      sh.shown live u,
      has-counted u,
      publish-counted u,
      url-publish counted,
      eq_iff url u,
      last_count-append u out (publish counted url ∷ []),
    );
  }

  lagging-IsShown :
      s.replaying ≡ true
      → IsShown (out ++ []) (record counted { dirty = add_dirty url counted.dirty })
  lagging-IsShown replay = record {
    silent = λ _. rw (sh.silent replay);
    touched = λ _ u.
        unfold count_visit in
        ground (arith, contains-add_dirty u url s.dirty, has-counted u, sh.touched replay u);
    shown = unfold count_visit in λ h. cc;
  }

  flushed-IsShown :
      s.replaying ≡ true
      → is_nonpos at.lag ≡ true
      → IsShown
          (out ++ map (publish (record counted { dirty = add_dirty url counted.dirty })) at.order)
          (record counted { replaying = false; dirty = [] })
  flushed-IsShown replay done = record {
    silent = λ h. cc;
    touched = λ h. cc;
    shown = λ _ u. rw (sh.silent replay) (
        unfold publish count_visit in
        ground (
          arith,
          last_count-map u (record counted { dirty = add_dirty url s.dirty }) at.order,
          (r replay done).all u,
          contains-add_dirty u url s.dirty,
          sh.touched replay u,
          has-counted u,
        ));
  }

  announce-IsShown : IsShown (out ++ (announce url at counted).1) (announce url at counted).0
  announce-IsShown = elim (Bool-cases s.replaying) [
    | inl replay ↦ elim (Bool-cases (is_nonpos at.lag)) [
      | inl done ↦
          rw (announce_flushed url at counted (replaying-counted ∙ replay) done)
            (flushed-IsShown replay done)
      | inr lags ↦
          rw (announce_lagging url at counted (replaying-counted ∙ replay) lags)
            (lagging-IsShown replay)
    ]
    | inr live ↦ rw (announce_live url at counted (replaying-counted ∙ live)) (live-IsShown live)
  ]

  pub step-IsShown : IsShown (out ++ (step url_field m at s).1) (step url_field m at s).0
  unfolding step
  step-IsShown = elim (Bool-cases (is_counted url_field m s)) [
    | inl yes_counted ↦ rw yes_counted announce-IsShown
    | inr passed ↦ rw (passed, append-nil out) sh
  ]
