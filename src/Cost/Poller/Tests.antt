-- ===== src/Cost/Poller/Tests.antt =====
-- Two cycles over two listed instances, of which one runs with a disk and a public address.
use pok.Cost.Estimate.Complete.{charges}
use pok.Cost.Estimate.{ComputeResource}
use pok.Cost.Inventory.Listed.{AllAbout, all_instances, inventory-AllAbout}
use pok.Cost.Inventory.{inventory, volumes_by_instance, tag_value, compute_resource}
use pok.Cost.Poller.Actual.{IsFromAnswer, costed_all, emit_actual-IsFromAnswer}
use pok.Cost.Poller.{ByTime, Gauge, credentials_gauge, emit_actual, emit_estimated, ensure_prices}
use pok.Cost.Poller.Degraded.{covered, resources_in, length-emit_estimated_any}
use pok.Cost.Prices.Grown.{Grows}
use pok.Cost.Poller.Emitted.{length-emit_estimated, emit_estimated_again}
use pok.Cost.Poller.Ensured.{ensure_prices-answered, HasRates}
use pok.Cost.Prices.Cached.{IsAnswering, IsThrifty}
use pok.Cost.Prices.{Request, Pricer, price_in, parse_on_demand_usd, scan_offers, new_price_book}
use pok.Cost.Samples.{dollars, one_offer, five_dollars, fresh, disk, listed, worker, spare}
use pok.Prelude.Bytes.{Bytes, bytes, bytes_beq, bytes_key}
use pok.Prelude.Lists.{length, All}
use pok.Prelude.Maps.{index, insert}
use pok.Prelude.{◌+◌, ◌≡◌, ◌⊎◌, refl, true, Option, none, some, List, [], ◌∷◌}

answers : IsAnswering dollars one_offer five_dollars
unfolding price_in parse_on_demand_usd scan_offers bytes_beq
answers sent q = (5, refl)

thrifty : IsThrifty dollars one_offer five_dollars fresh
unfolding new_price_book
thrifty = refl

listed_inventory : inventory (some listed) (some (disk ∷ [])) ≡ some (worker ∷ spare ∷ [])
unfolding inventory volumes_by_instance compute_resource tag_value index insert bytes_beq
listed_inventory = refl

length-emit_estimated_example :
    length
      (emit_estimated dollars one_offer five_dollars true (some listed) (some (disk ∷ [])) fresh).0
    ≡ 1 + charges (worker ∷ spare ∷ [])
length-emit_estimated_example =
    length-emit_estimated dollars one_offer five_dollars (some listed) (some (disk ∷ [])) fresh
      (worker ∷ spare ∷ []) answers thrifty listed_inventory

emit_estimated_again_example :
    emit_estimated dollars one_offer five_dollars true
      (some listed)
      (some (disk ∷ []))
      (emit_estimated dollars one_offer five_dollars true
        (some listed)
        (some (disk ∷ []))
        fresh).1.1
    ≡ emit_estimated dollars one_offer five_dollars true (some listed) (some (disk ∷ [])) fresh
emit_estimated_again_example =
    emit_estimated_again dollars one_offer five_dollars (some listed) (some (disk ∷ [])) fresh
      answers thrifty

-- The Pricing API answers nothing: the gauges are those of the address and the stopped instance.
abbrev silent : List Request → Request → Option (List Bytes)
silent sent q = none

abbrev unpriced : Pricer dollars one_offer silent
unpriced = record { region = bytes "eu-west-1"; book = new_price_book dollars 1; requests = [] }

length-emit_estimated_any_example :
    let r =
      emit_estimated dollars one_offer silent true (some listed) (some (disk ∷ [])) unpriced in
    ((others : List (Gauge dollars)) × (r.0 ≡ credentials_gauge dollars true ∷ others)
      × (length others
          ≡ covered dollars r.1.1.book
              (resources_in dollars (inventory (some listed) (some (disk ∷ []))))))
    × (r.1.0 ≡ true)
    × Grows dollars unpriced.book r.1.1.book
    × (((true ≡ true) × (true ≡ true)) ⊎ (r.1.1 ≡ unpriced))
length-emit_estimated_any_example =
    length-emit_estimated_any dollars one_offer silent true (some listed) (some (disk ∷ []))
      unpriced

ensure_prices-answered_example :
    IsThrifty dollars one_offer five_dollars
      (ensure_prices dollars one_offer five_dollars (worker ∷ spare ∷ []) fresh)
    × All
        (HasRates dollars
          (ensure_prices dollars one_offer five_dollars (worker ∷ spare ∷ []) fresh).book)
        (worker ∷ spare ∷ [])
ensure_prices-answered_example =
    ensure_prices-answered dollars one_offer five_dollars (worker ∷ spare ∷ []) fresh answers
      thrifty

abbrev two_services : List ByTime
two_services =
    record {
      start = some (some (bytes "2026-01-01"));
      groups =
          record {
            group_keys = bytes "EC2" ∷ bytes "t4g" ∷ [];
            metrics =
                (
                  bytes "UnblendedCost",
                  record { amount = some (bytes "7"); unit = some (bytes "USD") },
                )
                ∷ [];
          }
          ∷ record { group_keys = bytes "S3" ∷ []; metrics = [] }
          ∷ [];
    }
    ∷ []

emit_actual-IsFromAnswer_example :
    (length (emit_actual dollars true (some two_services)).0 ≡ costed_all dollars two_services)
    × All (IsFromAnswer dollars two_services) (emit_actual dollars true (some two_services)).0
emit_actual-IsFromAnswer_example = emit_actual-IsFromAnswer dollars two_services

inventory-AllAbout_example :
    (inv : List ComputeResource) × ((inventory (some listed) (some (disk ∷ [])) ≡ some inv)
      × AllAbout (disk ∷ []) (all_instances listed) inv)
inventory-AllAbout_example = inventory-AllAbout (disk ∷ []) listed
