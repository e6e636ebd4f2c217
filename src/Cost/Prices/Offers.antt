-- ===== src/Cost/Prices/Offers.antt =====
-- The price in a document, whatever the order in which `range` visits its offers and dimensions.
use pok.Prelude.Floats.{Floats}
use pok.Cost.Prices.{scan_dimensions, scan_offers, price_of, parse_on_demand_usd}
use pok.Prelude.Bytes.{Bytes, bytes_key}
use pok.Prelude.Lists.{All, IsIn, first, later}
use pok.Prelude.Tests.{eq_iff}
use pok.Prelude.{◌≡◌, ◌≢◌, ◌⊎◌, refl, inl, inr, Option, none, some, List, [], ◌∷◌, arith}

-- A dimension has no USD price, or the one given.
abbrev pub HasPrice : Bytes → Bytes → Type 0
HasPrice usd dimension = (dimension ≡ []) ⊎ (dimension ≡ usd)

module _ (F : Floats) (usd : Bytes) where
  scan_dimensions-HasPrice :
      (dimensions : List Bytes)
      → All (HasPrice usd) dimensions
      → (scan_dimensions F dimensions ≡ none)
        ⊎ (scan_dimensions F dimensions ≡ some (F.parse_float usd))
  unfolding scan_dimensions
  scan_dimensions-HasPrice [] h = inl refl
  scan_dimensions-HasPrice (d ∷ dimensions) h =
      ground (arith, scan_dimensions-HasPrice dimensions h.1, h.0, eq_iff d [])

  scan_dimensions-IsIn :
      (dimensions : List Bytes)
      → usd ≢ []
      → All (HasPrice usd) dimensions
      → IsIn usd dimensions
      → scan_dimensions F dimensions ≡ some (F.parse_float usd)
  unfolding scan_dimensions
  scan_dimensions-IsIn [] ne h i = elim i [ ]
  scan_dimensions-IsIn (d ∷ dimensions) ne h first = ground (arith, eq_iff d [])
  scan_dimensions-IsIn (d ∷ dimensions) ne h (later i) =
      ground (arith, scan_dimensions-IsIn dimensions ne h.1 i, h.0, eq_iff d [])

  scan_offers-IsIn :
      (offers : List (List Bytes)) (offer : List Bytes)
      → usd ≢ []
      → All (All (HasPrice usd)) offers
      → IsIn offer offers
      → IsIn usd offer
      → scan_offers F offers ≡ some (F.parse_float usd)
  unfolding scan_offers
  scan_offers-IsIn [] offer ne h i j = elim i [ ]
  scan_offers-IsIn (o ∷ offers) offer ne h first j =
      rw (scan_dimensions-IsIn o ne h.0 j, scan_offers) refl
  scan_offers-IsIn (o ∷ offers) offer ne h (later i) j = elim (scan_dimensions-HasPrice o h.0) [
    | inl e ↦ rw (e, scan_offers) (scan_offers-IsIn offers offer ne h.1 i j)
    | inr e ↦ rw (e, scan_offers) refl
  ]

  -- If the document has one price, in whatever offers and dimensions it stands and beside whatever
  -- dimensions without one, then it is the result, or the error that it does not parse.
  pub parse_on_demand_usd-IsIn :
      (decode : Bytes → Option (List (List Bytes))) (doc : Bytes) (offers : List (List Bytes))
      (offer : List Bytes)
      → usd ≢ []
      → decode doc ≡ some offers
      → All (All (HasPrice usd)) offers
      → IsIn offer offers
      → IsIn usd offer
      → parse_on_demand_usd F decode doc ≡ price_of F (F.parse_float usd)
  unfolding parse_on_demand_usd
  parse_on_demand_usd-IsIn decode doc offers offer ne d h i j =
      rw (d, parse_on_demand_usd) (rw (scan_offers-IsIn offers offer ne h i j) refl)
