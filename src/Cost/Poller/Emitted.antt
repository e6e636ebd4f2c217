-- ===== src/Cost/Poller/Emitted.antt =====
-- What an estimate cycle emits.
use pok.Cost.Estimate.Complete.{IsPriced, charges, length-compute_all}
use pok.Cost.Estimate.{ComputeResource, Sample, compute_all}
use pok.Prelude.Floats.{Floats}
use pok.Cost.Inventory.{Instance, Volume, inventory}
use pok.Cost.Poller.{emit_samples, ensure_prices, emit_inventory, emit_estimated}
use pok.Cost.Poller.Ensured.{
  HasRates, HasRates-IsPriced, ensure_prices-answered, ensure_prices_known,
}
use pok.Cost.Prices.Cached.{IsAnswering, IsThrifty}
use pok.Cost.Prices.{Request, Pricer, price_source}
use pok.Prelude.Bytes.{Bytes}
use pok.Prelude.Lists.{length, All-imp}
use pok.Prelude.Tests.{Option-cases}
use pok.Prelude.{◌+◌, ◌≡◌, refl, inl, inr, true, Option, some, List, [], ◌∷◌, arith}

module _ (F : Floats) where
  pub length-emit_samples :
      (samples : List (Sample F)) → length (emit_samples F samples) ≡ length samples
  unfolding emit_samples
  length-emit_samples [] = refl
  length-emit_samples (s ∷ samples) = omega (arith, length-emit_samples samples)

  module _ (decode : Bytes → Option (List (List Bytes)))
      (get_products : List Request → Request → Option (List Bytes)) where
    -- With credentials, listings that succeed, an API that answers every request, and a pricer that
    -- has sent a request for each rate of its book, as a new one has, a cycle emits the credentials
    -- gauge and one gauge for each instance, running or not, each volume of one, and each public address
    -- in the inventory.
    pub length-emit_estimated :
        (di : Option (List (List Instance))) (dv : Option (List Volume))
        (p : Pricer F decode get_products) (inv : List ComputeResource)
        → IsAnswering F decode get_products
        → IsThrifty F decode get_products p
        → inventory di dv ≡ some inv
        → length (emit_estimated F decode get_products true di dv p).0 ≡ 1 + charges inv
    unfolding emit_estimated emit_inventory
    length-emit_estimated di dv p inv answers thrifty h =
        let p' = ensure_prices F decode get_products inv p in
        rw h (
          omega (
            arith,
            length-emit_samples (compute_all F (price_source F p'.book) inv),
            length-compute_all F (price_source F p'.book) inv (
                All-imp (HasRates F p'.book) (IsPriced F (price_source F p'.book)) inv
                  (HasRates-IsPriced F p'.book)
                  (ensure_prices-answered F decode get_products inv p answers thrifty).1),
          ))

    -- With credentials, an API that answers every request with a price, and a pricer that has sent a
    -- request for each rate of its book, as a new one has, a second cycle over the same listings sends
    -- no request, changes no rate and emits the same.
    pub emit_estimated_again :
        (di : Option (List (List Instance))) (dv : Option (List Volume))
        (p : Pricer F decode get_products)
        → IsAnswering F decode get_products
        → IsThrifty F decode get_products p
        → emit_estimated F decode get_products true di dv
            (emit_estimated F decode get_products true di dv p).1.1
          ≡ emit_estimated F decode get_products true di dv p
    unfolding emit_estimated emit_inventory
    emit_estimated_again di dv p answers thrifty = elim (Option-cases (inventory di dv)) [
      | inl h ↦ rw h refl
      | inr (inv, h) ↦ rw h (
          rw
            (ensure_prices_known F decode get_products inv
              (ensure_prices F decode get_products inv p)
              (ensure_prices-answered F decode get_products inv p answers thrifty).1)
            refl)
    ]
