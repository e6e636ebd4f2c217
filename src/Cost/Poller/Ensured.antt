-- ===== src/Cost/Poller/Ensured.antt =====
-- What `ensurePrices` leaves in the book, and the requests that it sends.
use pok.Cost.Estimate.Complete.{IsPriced, IsPricedVolume}
use pok.Cost.Estimate.{StorageResource, ComputeResource, hourly_rate}
use pok.Prelude.Floats.{Floats}
use pok.Cost.Poller.{ensure_volumes, ensure_prices}
use pok.Cost.Prices.Grown.{Grows, Grows-refl, Grows-trans}
use pok.Cost.Prices.Cached.{
  IsAnswering, IsThrifty, ensure_instance-Grows, ensure_instance-answered, ensure_instance_known,
  ensure_ebs-Grows, ensure_ebs-answered, ensure_ebs_known,
}
use pok.Cost.Prices.{
  Request, PriceBook, Pricer, has_instance, has_ebs, ensure_instance, ensure_ebs, price_source,
}
use pok.Prelude.Bytes.{Bytes, bytes_key}
use pok.Prelude.Lists.{All, All-imp}
use pok.Prelude.Maps.{lookup, lookup_present, has_of_lookup}
use pok.Prelude.Tests.{Option-cases}
use pok.Prelude.{◌≡◌, ◌⊎◌, refl, sym, ◌∙◌, inl, inr, none, true, Option, List, [], ◌∷◌, arith}

module _ (F : Floats) where
  -- The book has the rate of a volume's type, or all rates that an instance can need.
  abbrev pub HasVolume : PriceBook F → StorageResource → Type 0
  HasVolume b v = has_ebs F v.volume_type b ≡ true

  abbrev pub HasRates : PriceBook F → ComputeResource → Type 0
  HasRates b r = (has_instance F r.instance_type b ≡ true) × All (HasVolume b) r.volumes

  has_ebs-Grows :
      (b b' : PriceBook F) (t : Bytes) → Grows F b b' → has_ebs F t b ≡ true → has_ebs F t b' ≡ true
  unfolding has_ebs
  has_ebs-Grows b b' t g h =
      let (v, e) = lookup_present t b.ebs_rates h in
      has_of_lookup t v b'.ebs_rates (g.volumes t v e)

  has_instance-Grows :
      (b b' : PriceBook F) (t : Bytes)
      → Grows F b b'
      → has_instance F t b ≡ true
      → has_instance F t b' ≡ true
  unfolding has_instance
  has_instance-Grows b b' t g h =
      let (v, e) = lookup_present t b.instance_rates h in
      has_of_lookup t v b'.instance_rates (g.instances t v e)

  HasRates-Grows :
      (b b' : PriceBook F) (r : ComputeResource) → Grows F b b' → HasRates b r → HasRates b' r
  HasRates-Grows b b' r g h = (
    has_instance-Grows b b' r.instance_type g h.0,
    All-imp (HasVolume b) (HasVolume b') r.volumes (λ v. has_ebs-Grows b b' v.volume_type g) h.1,
  )

  -- Then the estimator finds every rate.
  pub HasRates-IsPriced :
      (b : PriceBook F) (r : ComputeResource) → HasRates b r → IsPriced F (price_source F b) r
  unfolding has_instance has_ebs price_source hourly_rate
  HasRates-IsPriced b r h = (
    (λ e. ground (arith, lookup_present r.instance_type b.instance_rates h.0)),
    All-imp (HasVolume b) (IsPricedVolume F (price_source F b)) r.volumes
        (λ v k e. ground (arith, lookup_present v.volume_type b.ebs_rates k)) h.1,
  )

  module _ (decode : Bytes → Option (List (List Bytes)))
      (get_products : List Request → Request → Option (List Bytes)) where
    ensure_volumes-Grows :
        (volumes : List StorageResource) (p : Pricer F decode get_products)
        → Grows F p.book (ensure_volumes F decode get_products volumes p).book
    unfolding ensure_volumes
    ensure_volumes-Grows [] p = Grows-refl F p.book
    ensure_volumes-Grows (v ∷ volumes) p =
        let p' = (ensure_ebs F decode get_products v.volume_type p).1 in
        Grows-trans F p.book p'.book (ensure_volumes F decode get_products volumes p').book
          (ensure_ebs-Grows F decode get_products v.volume_type p) (ensure_volumes-Grows volumes p')

    pub ensure_prices-Grows :
        (instances : List ComputeResource) (p : Pricer F decode get_products)
        → Grows F p.book (ensure_prices F decode get_products instances p).book
    unfolding ensure_prices
    ensure_prices-Grows [] p = Grows-refl F p.book
    ensure_prices-Grows (r ∷ instances) p =
        let p' = (ensure_instance F decode get_products r.instance_type p).1 in
        let p'' = ensure_volumes F decode get_products r.volumes p' in
        Grows-trans F p.book p''.book (ensure_prices F decode get_products instances p'').book
          (Grows-trans F p.book p'.book p''.book
            (ensure_instance-Grows F decode get_products r.instance_type p)
            (ensure_volumes-Grows r.volumes p'))
          (ensure_prices-Grows instances p'')

    -- A rate that is cached stays as it is, and so does the price of an address, whatever the API
    -- answers.
    pub ensure_prices-keeps :
        (instances : List ComputeResource) (p : Pricer F decode get_products) (t : Bytes)
        → let b = (ensure_prices F decode get_products instances p).book in
          ((lookup t p.book.instance_rates ≡ none)
            ⊎ (lookup t b.instance_rates ≡ lookup t p.book.instance_rates))
          × ((lookup t p.book.ebs_rates ≡ none)
              ⊎ (lookup t b.ebs_rates ≡ lookup t p.book.ebs_rates))
          × (b.ipv4_hourly ≡ p.book.ipv4_hourly)
    ensure_prices-keeps instances p t =
        let g = ensure_prices-Grows instances p in
        (
          elim (Option-cases (lookup t p.book.instance_rates)) [
            | inl h ↦ inl h
            | inr (v, h) ↦ inr (g.instances t v h ∙ sym h)
          ],
          elim (Option-cases (lookup t p.book.ebs_rates)) [
            | inl h ↦ inl h
            | inr (v, h) ↦ inr (g.volumes t v h ∙ sym h)
          ],
          g.ipv4,
        )

    ensure_volumes-answered :
        (volumes : List StorageResource) (p : Pricer F decode get_products)
        → IsAnswering F decode get_products
        → IsThrifty F decode get_products p
        → IsThrifty F decode get_products (ensure_volumes F decode get_products volumes p)
          × All (HasVolume (ensure_volumes F decode get_products volumes p).book) volumes
    unfolding ensure_volumes
    ensure_volumes-answered [] p answers thrifty = (thrifty, tt)
    ensure_volumes-answered (v ∷ volumes) p answers thrifty =
        let p' = (ensure_ebs F decode get_products v.volume_type p).1 in
        let one = ensure_ebs-answered F decode get_products v.volume_type p answers thrifty in
        let rest = ensure_volumes-answered volumes p' answers one.0 in
        (
          rest.0,
          (
            has_ebs-Grows p'.book (ensure_volumes F decode get_products volumes p').book
                v.volume_type (ensure_volumes-Grows volumes p') one.1,
            rest.1,
          ),
        )

    -- With an API that answers every request, and a pricer that has sent as many requests as its book
    -- has rates, all rates that the inventory can need are in the book afterwards, and again as many
    -- requests were sent as the book has rates.
    pub ensure_prices-answered :
        (instances : List ComputeResource) (p : Pricer F decode get_products)
        → IsAnswering F decode get_products
        → IsThrifty F decode get_products p
        → IsThrifty F decode get_products (ensure_prices F decode get_products instances p)
          × All (HasRates (ensure_prices F decode get_products instances p).book) instances
    unfolding ensure_prices
    ensure_prices-answered [] p answers thrifty = (thrifty, tt)
    ensure_prices-answered (r ∷ instances) p answers thrifty =
        let p' = (ensure_instance F decode get_products r.instance_type p).1 in
        let p'' = ensure_volumes F decode get_products r.volumes p' in
        let one =
          ensure_instance-answered F decode get_products r.instance_type p answers thrifty in
        let some_volumes = ensure_volumes-answered r.volumes p' answers one.0 in
        let rest = ensure_prices-answered instances p'' answers some_volumes.0 in
        (
          rest.0,
          (
            HasRates-Grows p''.book (ensure_prices F decode get_products instances p'').book r
                (ensure_prices-Grows instances p'')
                (
                  has_instance-Grows p'.book p''.book r.instance_type
                      (ensure_volumes-Grows r.volumes p') one.1,
                  some_volumes.1,
                ),
            rest.1,
          ),
        )

    ensure_volumes_known :
        (volumes : List StorageResource) (p : Pricer F decode get_products)
        → All (HasVolume p.book) volumes
        → ensure_volumes F decode get_products volumes p ≡ p
    unfolding ensure_volumes
    ensure_volumes_known [] p h = refl
    ensure_volumes_known (v ∷ volumes) p h =
        rw (ensure_ebs_known F decode get_products v.volume_type p h.0)
          (ensure_volumes_known volumes p h.1)

    -- For an inventory whose rates are all cached nothing is requested and nothing changes.
    pub ensure_prices_known :
        (instances : List ComputeResource) (p : Pricer F decode get_products)
        → All (HasRates p.book) instances
        → ensure_prices F decode get_products instances p ≡ p
    unfolding ensure_prices
    ensure_prices_known [] p h = refl
    ensure_prices_known (r ∷ instances) p h =
        rw (ensure_instance_known F decode get_products r.instance_type p h.0.0)
          (rw (ensure_volumes_known r.volumes p h.0.1) (ensure_prices_known instances p h.1))
