-- ===== src/Cost/Poller/Actual.antt =====
-- What an actual cycle emits.
use pok.Cost.Attrs.{Attrs, copy_into, with_cost_type}
use pok.Prelude.Floats.{Floats}
use pok.Cost.Inventory.{to_string}
use pok.Cost.Poller.{
  MetricValue, Group, ByTime, date_of, label_groups, Gauge, CostRecord, group_records, cost_records,
  actual_gauge, emit_records, emit_actual,
}
use pok.Prelude.Bytes.{Bytes, bytes, bytes_beq, bytes_key}
use pok.Prelude.Lists.{length, length-append, All, All-append, All-imp, IsIn, first, later}
use pok.Prelude.Maps.{Map, lookup, has, insert, lookup_missing, lookup_present}
use pok.Prelude.Tests.{if◌then◌else◌, Option-cases}
use pok.Prelude.{
  ℕ, suc, ◌+◌, ◌≡◌, refl, inl, inr, true, Option, none, some, List, [], ◌∷◌, ◌++◌, arith,
}

abbrev pub first_of : List Bytes → Option Bytes
first_of [] = none
first_of (key ∷ keys) = some key

abbrev pub second_of : List Bytes → Option Bytes
second_of [] = none
second_of (key ∷ keys) = first_of keys

abbrev pub group_names : List Bytes
group_names = bytes "service" ∷ bytes "instance_type" ∷ []

module _ (F : Floats) where
  -- The gauge tells the day, and the group by the keys that it has, of which more than two are
  -- dropped; its value is the amount of the metric.
  pub record IsActual (by_time : ByTime) (g : Group) (out : Gauge F) : Type 0 where
    pub cost : MetricValue
    pub has_cost : lookup (bytes "UnblendedCost") g.metrics ≡ some cost
    pub value : out.value ≡ (F.parse_float (to_string cost.amount)).0
    pub service : lookup (bytes "service") out.attrs ≡ first_of g.group_keys
    pub instance_type : lookup (bytes "instance_type") out.attrs ≡ second_of g.group_keys
    pub usage_date : lookup (bytes "usage_date") out.attrs ≡ some (date_of by_time.start)
    pub cost_type : lookup (bytes "cost.type") out.attrs ≡ some (bytes "actual")

  -- The gauge is that of some group of the answer.
  abbrev pub IsFromGroup : ByTime → Gauge F → Type 0
  IsFromGroup by_time out = (g : Group) × (IsIn g by_time.groups × IsActual by_time g out)

  abbrev pub IsFromAnswer : List ByTime → Gauge F → Type 0
  IsFromAnswer results out = (t : ByTime) × (IsIn t results × IsFromGroup t out)

  unnamed_keys : (keys : List Bytes) (groups : Attrs) → label_groups keys [] groups ≡ groups
  unfolding label_groups
  unnamed_keys [] groups = refl
  unnamed_keys (key ∷ keys) groups = refl

  abbrev record_of : ByTime → Group → MetricValue → CostRecord F
  record_of by_time g mv = record {
    date = date_of by_time.start;
    groups = label_groups g.group_keys group_names [];
    amount = (F.parse_float (to_string mv.amount)).0;
    unit = to_string mv.unit;
  }

  actual_gauge-IsActual :
      (by_time : ByTime) (keys : List Bytes) (metrics : Map Bytes MetricValue) (mv : MetricValue)
      → lookup (bytes "UnblendedCost") metrics ≡ some mv
      → let g : Group = record { group_keys = keys; metrics = metrics } in
        IsActual by_time g (actual_gauge F (record_of by_time g mv))
  unfolding actual_gauge label_groups copy_into with_cost_type insert lookup bytes_beq
  actual_gauge-IsActual t [] ms mv h = record {
    cost = mv;
    has_cost = h;
    value = refl;
    service = refl;
    instance_type = refl;
    usage_date = refl;
    cost_type = refl;
  }
  actual_gauge-IsActual t (x ∷ []) ms mv h = record {
    cost = mv;
    has_cost = h;
    value = refl;
    service = refl;
    instance_type = refl;
    usage_date = refl;
    cost_type = refl;
  }
  actual_gauge-IsActual t (x ∷ y ∷ rest) ms mv h =
      let named : Attrs = (bytes "service", x) ∷ (bytes "instance_type", y) ∷ [] in
      record {
        cost = mv;
        has_cost = h;
        value = refl;
        service = rw (unnamed_keys rest named) refl;
        instance_type = rw (unnamed_keys rest named) refl;
        usage_date = rw (unnamed_keys rest named) refl;
        cost_type = rw (unnamed_keys rest named) refl;
      }

  emit_records-append :
      (xs ys : List (CostRecord F))
      → emit_records F (xs ++ ys) ≡ emit_records F xs ++ emit_records F ys
  unfolding emit_records
  emit_records-append [] ys = refl
  emit_records-append (x ∷ xs) ys = cc (emit_records-append xs ys)

  group_records-IsFromGroup :
      (t : ByTime) (groups : List Group)
      → ((g : Group) → IsIn g groups → IsIn g t.groups)
      → All (IsFromGroup t) (
          emit_records F
            (group_records F (date_of t.start) (bytes "UnblendedCost") group_names groups))
  unfolding group_records emit_records
  group_records-IsFromGroup t [] sub = tt
  group_records-IsFromGroup t (g ∷ groups) sub =
      elim (Option-cases (lookup (bytes "UnblendedCost") g.metrics)) [
        | inl none_of ↦
            rw (none_of, All) (group_records-IsFromGroup t groups λ x i. sub x (later i))
        | inr (mv, h) ↦
            rw (h, All)
              (
                (g, (sub g first, actual_gauge-IsActual t g.group_keys g.metrics mv h)),
                group_records-IsFromGroup t groups λ x i. sub x (later i),
              )
      ]

  cost_records-IsFromAnswer :
      (results : List ByTime)
      → All
          (IsFromAnswer results)
          (emit_records F (cost_records F (bytes "UnblendedCost") group_names results))
  unfolding cost_records emit_records
  cost_records-IsFromAnswer [] = tt
  cost_records-IsFromAnswer (t ∷ results) =
      let own = group_records F (date_of t.start) (bytes "UnblendedCost") group_names t.groups in
      let more = cost_records F (bytes "UnblendedCost") group_names results in
      rw (emit_records-append own more) (
        All-append (IsFromAnswer (t ∷ results)) (emit_records F own) (emit_records F more)
          (All-imp (IsFromGroup t) (IsFromAnswer (t ∷ results)) (emit_records F own)
            (λ out h. (t, (first, h))) (group_records-IsFromGroup t t.groups λ g i. i))
          (All-imp (IsFromAnswer results) (IsFromAnswer (t ∷ results)) (emit_records F more)
            (λ out h. (h.0, (later h.1.0, h.1.1))) (cost_records-IsFromAnswer results)))

  -- Groups of a day that have the metric.
  abbrev pub costed : List Group → ℕ
  costed [] = 0
  costed (g ∷ groups) =
      let rest = costed groups in if has (bytes "UnblendedCost") g.metrics then suc rest else rest

  abbrev pub costed_all : List ByTime → ℕ
  costed_all [] = 0
  costed_all (t ∷ results) = costed t.groups + costed_all results

  length-group_records :
      (date : Bytes) (groups : List Group)
      → length (emit_records F (group_records F date (bytes "UnblendedCost") group_names groups))
        ≡ costed groups
  unfolding group_records emit_records
  length-group_records date [] = refl
  length-group_records date (g ∷ groups) = ground (
    arith,
    length-group_records date groups,
    lookup_missing (bytes "UnblendedCost") g.metrics,
    lookup_present (bytes "UnblendedCost") g.metrics,
  )

  length-cost_records :
      (results : List ByTime)
      → length (emit_records F (cost_records F (bytes "UnblendedCost") group_names results))
        ≡ costed_all results
  unfolding cost_records emit_records
  length-cost_records [] = refl
  length-cost_records (t ∷ results) =
      let own = group_records F (date_of t.start) (bytes "UnblendedCost") group_names t.groups in
      let more = cost_records F (bytes "UnblendedCost") group_names results in
      rw (emit_records-append own more) (
        omega (
          arith,
          length-append (emit_records F own) (emit_records F more),
          length-group_records (date_of t.start) t.groups,
          length-cost_records results,
        ))

  -- From an answer of Cost Explorer one gauge is emitted for each group of each day that has the
  -- metric, and each gauge is that of such a group: its value is the amount, its labels are the day,
  -- the cost type and the group's first two keys, where it has them.
  pub emit_actual-IsFromAnswer :
      (results : List ByTime)
      → (length (emit_actual F true (some results)).0 ≡ costed_all results)
        × All (IsFromAnswer results) (emit_actual F true (some results)).0
  unfolding emit_actual
  emit_actual-IsFromAnswer results =
      (length-cost_records results, cost_records-IsFromAnswer results)
