-- ===== src/Cost/Prices.antt =====
-- The cached rates, and the pricer that fills them from the AWS Pricing API: apps/awscost/pricing.go
-- and `Pricer` of apps/awscost/poller.go. The API is a parameter that answers a request knowing all
-- requests before it; `decode` is `json.Unmarshal` of a price list document, each of its two maps
-- in the order in which `range` visits it.
pub mod Grown
pub mod Cached
pub mod Offers
mod Tests
use pok.Cost.Estimate.{PriceSource}
use pok.Prelude.Floats.{Floats}
use pok.Prelude.Bytes.{Bytes, bytes, bytes_key}
use pok.Prelude.Lists.{length}
use pok.Prelude.Maps.{Map, lookup, has, insert}
use pok.Prelude.Tests.{◌==◌, if◌then◌else◌}
use pok.Prelude.{Bool, true, false, Option, none, some, List, [], ◌∷◌, ◌++◌}

-- GetProducts of a service, with a TERM_MATCH filter for each field and value.
pub record Request : Type 0 where
  pub service : Bytes
  pub filters : List (Bytes × Bytes)

unfoldable pub instance_request : Bytes → Bytes → Request
instance_request region instance_type = record {
  service = bytes "AmazonEC2";
  filters =
      (bytes "instanceType", instance_type)
      ∷ (bytes "regionCode", region)
      ∷ (bytes "operatingSystem", bytes "Linux")
      ∷ (bytes "tenancy", bytes "Shared")
      ∷ (bytes "preInstalledSw", bytes "NA")
      ∷ (bytes "capacitystatus", bytes "Used")
      ∷ [];
}

unfoldable pub ebs_request : Bytes → Bytes → Request
ebs_request region volume_type = record {
  service = bytes "AmazonEC2";
  filters =
      (bytes "productFamily", bytes "Storage")
      ∷ (bytes "volumeApiName", volume_type)
      ∷ (bytes "regionCode", region)
      ∷ [];
}

module _ (F : Floats) where
  pub record PriceBook : Type 0 where
    pub instance_rates : Map Bytes F.Float
    pub ebs_rates : Map Bytes F.Float
    pub ipv4_hourly : F.Float

  unfoldable pub new_price_book : F.Float → PriceBook
  new_price_book ipv4_hourly = record {
    instance_rates = [];
    ebs_rates = [];
    ipv4_hourly = ipv4_hourly;
  }

  unfoldable pub price_source : PriceBook → PriceSource F
  price_source b = record {
    instance_hourly = λ t. lookup t b.instance_rates;
    ebs_gb_month = λ t. lookup t b.ebs_rates;
    public_ipv4_hourly = b.ipv4_hourly;
  }

  unfoldable pub set_instance_hourly : Bytes → F.Float → PriceBook → PriceBook
  set_instance_hourly t v b = record b { instance_rates = insert t v b.instance_rates }

  unfoldable pub set_ebs_gb_month : Bytes → F.Float → PriceBook → PriceBook
  set_ebs_gb_month t v b = record b { ebs_rates = insert t v b.ebs_rates }

  unfoldable pub has_instance : Bytes → PriceBook → Bool
  has_instance t b = has t b.instance_rates

  unfoldable pub has_ebs : Bytes → PriceBook → Bool
  has_ebs t b = has t b.ebs_rates

  -- The price and whether the error is nil, or `none` where the loop goes on to the next dimension.
  unfoldable pub scan_dimensions : List Bytes → Option (F.Float × Bool)
  scan_dimensions [] = none
  scan_dimensions (usd ∷ dimensions) =
      let rest = scan_dimensions dimensions in if usd == [] then rest else some (F.parse_float usd)

  unfoldable pub scan_offers : List (List Bytes) → Option (F.Float × Bool)
  unfolding scan_dimensions
  scan_offers [] = none
  scan_offers (offer ∷ offers) =
      let rest = scan_offers offers in
      elim (scan_dimensions offer) [ none ↦ rest | some result ↦ some result ]

  -- The price of a result without error.
  unfoldable pub price_of : F.Float × Bool → Option F.Float
  price_of (price, ok) = if ok then some price else none

  module _ (decode : Bytes → Option (List (List Bytes))) where
    -- `none` is each of the three errors: no JSON, a price that is no number, no price.
    unfoldable pub parse_on_demand_usd : Bytes → Option F.Float
    unfolding scan_offers price_of
    parse_on_demand_usd doc = elim (decode doc) [
      | none ↦ none
      | some offers ↦ elim (scan_offers offers) [ none ↦ none | some result ↦ price_of result ]
    ]

    module _ (get_products : List Request → Request → Option (List Bytes)) where
      -- The book, and the requests sent so far, the latest last.
      pub record Pricer : Type 0 where
        pub region : Bytes
        pub book : PriceBook
        pub requests : List Request

      -- The price in the answer.
      unfoldable pub price_in : Option (List Bytes) → Option F.Float
      unfolding parse_on_demand_usd
      price_in none = none
      price_in (some []) = none
      price_in (some (doc ∷ docs)) = parse_on_demand_usd doc

      unfoldable pub fetch : Request → Pricer → Option F.Float × Pricer
      unfolding price_in
      fetch q p =
          (price_in (get_products p.requests q), record p { requests = p.requests ++ q ∷ [] })

      -- With whether the error is nil.
      unfoldable pub ensure_instance : Bytes → Pricer → Bool × Pricer
      unfolding fetch
      ensure_instance t p =
          if has_instance t p.book
          then (true, p)
          else (let (price, p') = fetch (instance_request p.region t) p in
              elim price [
                | none ↦ (false, p')
                | some v ↦ (true, record p' { book = set_instance_hourly t v p'.book })
              ])

      unfoldable pub ensure_ebs : Bytes → Pricer → Bool × Pricer
      unfolding fetch
      ensure_ebs t p =
          if has_ebs t p.book
          then (true, p)
          else (let (price, p') = fetch (ebs_request p.region t) p in
              elim price [
                | none ↦ (false, p')
                | some v ↦ (true, record p' { book = set_ebs_gb_month t v p'.book })
              ])
