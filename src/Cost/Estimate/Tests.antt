-- ===== src/Cost/Estimate/Tests.antt =====
-- An instance that runs with a disk and a public address, and a stopped one.
use pok.Prelude.Decimal.{format_int, read_int, read_int-format_int}
use pok.Cost.Estimate.Complete.{IsPriced, charges, length-compute_all}
use pok.Cost.Estimate.Labels.{IsBilled, compute_all-IsBilled}
use pok.Cost.Estimate.Stopped.{value_of}
use pok.Cost.Estimate.{PriceSource, hourly_rate, samples_of, compute_all}
use pok.Cost.Samples.{dollars, worker, spare}
use pok.Prelude.Int.{pos}
use pok.Prelude.Lists.{length, All}
use pok.Prelude.{◌≡◌, refl, some, [], ◌∷◌, map, arith}

abbrev flat : PriceSource dollars
flat = record { instance_hourly = λ t. some 2; ebs_gb_month = λ t. some 1; public_ipv4_hourly = 1 }

flat_values :
    map (value_of dollars flat) (compute_all dollars flat (worker ∷ spare ∷ []))
    ≡ 48 ∷ 48 ∷ 24 ∷ 0 ∷ []
unfolding compute_all samples_of
flat_values = refl

inputs-All-IsPriced : All (IsPriced dollars flat) (worker ∷ spare ∷ [])
unfolding hourly_rate
inputs-All-IsPriced =
    (((λ e. ground arith), ((λ e. ground arith), tt)), (((λ e. ground arith), tt), tt))

length-compute_all_example :
    length (compute_all dollars flat (worker ∷ spare ∷ [])) ≡ charges (worker ∷ spare ∷ [])
length-compute_all_example =
    length-compute_all dollars flat (worker ∷ spare ∷ []) inputs-All-IsPriced

compute_all-IsBilled_example :
    All
      (IsBilled dollars flat (worker ∷ spare ∷ []))
      (compute_all dollars flat (worker ∷ spare ∷ []))
compute_all-IsBilled_example = compute_all-IsBilled dollars flat (worker ∷ spare ∷ [])

read_int-format_int_example : read_int (format_int (pos 1460)) ≡ pos 1460
read_int-format_int_example = read_int-format_int (pos 1460) (omega arith)
