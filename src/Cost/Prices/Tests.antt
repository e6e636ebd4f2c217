-- ===== src/Cost/Prices/Tests.antt =====
-- A document with two offers, of which the second has the price beside an empty dimension.
use pok.Cost.Prices.Offers.{parse_on_demand_usd-IsIn}
use pok.Cost.Prices.{parse_on_demand_usd, price_of}
use pok.Cost.Samples.{dollars}
use pok.Prelude.Bytes.{Bytes, bytes}
use pok.Prelude.Lists.{head_or, first, later}
use pok.Prelude.{◌≡◌, refl, ap, inl, inr, Option, some, List, [], ◌∷◌, arith}

abbrev two_offers : Bytes → Option (List (List Bytes))
two_offers doc = some ([] ∷ ([] ∷ bytes "5" ∷ []) ∷ [])

parse_on_demand_usd-IsIn_example :
    parse_on_demand_usd dollars two_offers (bytes "doc")
    ≡ price_of dollars (dollars.parse_float (bytes "5"))
parse_on_demand_usd-IsIn_example =
    parse_on_demand_usd-IsIn dollars (bytes "5") two_offers (bytes "doc")
      ([] ∷ ([] ∷ bytes "5" ∷ []) ∷ []) ([] ∷ bytes "5" ∷ []) (λ p. omega (arith, ap (head_or 0) p))
      refl (tt, ((inl refl, (inr refl, tt)), tt)) (later first) (later first)
