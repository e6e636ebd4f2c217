-- ===== src/Cost/Prices/Cached.antt =====
-- One rate at a time: what `EnsureInstance` and `EnsureEBS` do to the book and to the requests.
use pok.Prelude.Floats.{Floats}
use pok.Cost.Prices.{
  Request, Pricer, set_instance_hourly, set_ebs_gb_month, has_instance, has_ebs, price_in, fetch,
  instance_request, ebs_request, ensure_instance, ensure_ebs,
}
use pok.Prelude.Bytes.{Bytes, bytes_key}
use pok.Prelude.Lists.{length, length-append}
use pok.Prelude.Maps.{has-insert}
use pok.Prelude.Tests.{eq_refl, Bool-cases, Option-cases}
use pok.Prelude.{◌≡◌, refl, inl, inr, true, false, Option, none, some, List, [], ◌∷◌, ◌++◌, arith}
use pok.Cost.Prices.Grown.{
  length_missing, Grows, Grows-refl, count_rates, set_instance_hourly-Grows, set_ebs_gb_month-Grows,
}

module _ (F : Floats) where
  module _ (decode : Bytes → Option (List (List Bytes)))
      (get_products : List Request → Request → Option (List Bytes)) where
    -- The API answers every request with a price.
    abbrev pub IsAnswering : Type 0
    IsAnswering =
        (sent : List Request) (q : Request)
        → (v : F.Float) × (price_in F decode get_products (get_products sent q) ≡ some v)

    -- Requests sent are as many as rates that they brought, over those there were.
    abbrev pub IsThrifty : Pricer F decode get_products → Type 0
    IsThrifty p = length p.requests ≡ count_rates F p.book

    -- The three outcomes of `ensure_instance`.
    ensure_instance_cached :
        (t : Bytes) (p : Pricer F decode get_products)
        → has_instance F t p.book ≡ true
        → ensure_instance F decode get_products t p ≡ (true, p)
    unfolding ensure_instance
    ensure_instance_cached t p h = rw h refl

    ensure_instance_priced :
        (t : Bytes) (p : Pricer F decode get_products) (v : F.Float)
        → has_instance F t p.book ≡ false
        → price_in F decode get_products (get_products p.requests (instance_request p.region t))
          ≡ some v
        → ensure_instance F decode get_products t p ≡ (
          true,
          record p {
            book = set_instance_hourly F t v p.book;
            requests = p.requests ++ instance_request p.region t ∷ [];
          },
        )
    unfolding ensure_instance fetch
    ensure_instance_priced t p v h e = rw h (rw e refl)

    ensure_instance_unpriced :
        (t : Bytes) (p : Pricer F decode get_products)
        → has_instance F t p.book ≡ false
        → price_in F decode get_products (get_products p.requests (instance_request p.region t))
          ≡ none
        → ensure_instance F decode get_products t p
          ≡ (false, record p { requests = p.requests ++ instance_request p.region t ∷ [] })
    unfolding ensure_instance fetch
    ensure_instance_unpriced t p h e = rw h (rw e refl)

    pub ensure_instance-Grows :
        (t : Bytes) (p : Pricer F decode get_products)
        → Grows F p.book (ensure_instance F decode get_products t p).1.book
    ensure_instance-Grows t p = elim (Bool-cases (has_instance F t p.book)) [
      | inl h ↦ rw (ensure_instance_cached t p h) (Grows-refl F p.book)
      | inr h ↦
          elim (Option-cases (
            price_in F decode get_products
              (get_products p.requests (instance_request p.region t)))) [
                | inl e ↦ rw (ensure_instance_unpriced t p h e) (Grows-refl F p.book)
                | inr (v, e) ↦
                    rw (ensure_instance_priced t p v h e) (set_instance_hourly-Grows F t v p.book h)
              ]
    ]

    -- With an API that answers, the rate is in the book afterwards, for one request if it was not.
    pub ensure_instance-answered :
        (t : Bytes) (p : Pricer F decode get_products)
        → IsAnswering
        → IsThrifty p
        → IsThrifty (ensure_instance F decode get_products t p).1
          × (has_instance F t (ensure_instance F decode get_products t p).1.book ≡ true)
    unfolding has_instance set_instance_hourly
    ensure_instance-answered t p answers thrifty = elim (Bool-cases (has_instance F t p.book)) [
      | inl h ↦ rw (ensure_instance_cached t p h) (thrifty, h)
      | inr h ↦
          let (v, e) = answers p.requests (instance_request p.region t) in
          rw (ensure_instance_priced t p v h e) (
            omega (
              arith,
              length-append p.requests (instance_request p.region t ∷ []),
              length_missing t v p.book.instance_rates h,
            ),
            ground (arith, has-insert t t v p.book.instance_rates, eq_refl t),
          )
    ]

    pub ensure_instance_known :
        (t : Bytes) (p : Pricer F decode get_products)
        → has_instance F t p.book ≡ true
        → (ensure_instance F decode get_products t p).1 ≡ p
    ensure_instance_known t p h = rw (ensure_instance_cached t p h) refl

    -- The three outcomes of `ensure_ebs`.
    ensure_ebs_cached :
        (t : Bytes) (p : Pricer F decode get_products)
        → has_ebs F t p.book ≡ true
        → ensure_ebs F decode get_products t p ≡ (true, p)
    unfolding ensure_ebs
    ensure_ebs_cached t p h = rw h refl

    ensure_ebs_priced :
        (t : Bytes) (p : Pricer F decode get_products) (v : F.Float)
        → has_ebs F t p.book ≡ false
        → price_in F decode get_products (get_products p.requests (ebs_request p.region t)) ≡ some v
        → ensure_ebs F decode get_products t p ≡ (
          true,
          record p {
            book = set_ebs_gb_month F t v p.book;
            requests = p.requests ++ ebs_request p.region t ∷ [];
          },
        )
    unfolding ensure_ebs fetch
    ensure_ebs_priced t p v h e = rw h (rw e refl)

    ensure_ebs_unpriced :
        (t : Bytes) (p : Pricer F decode get_products)
        → has_ebs F t p.book ≡ false
        → price_in F decode get_products (get_products p.requests (ebs_request p.region t)) ≡ none
        → ensure_ebs F decode get_products t p
          ≡ (false, record p { requests = p.requests ++ ebs_request p.region t ∷ [] })
    unfolding ensure_ebs fetch
    ensure_ebs_unpriced t p h e = rw h (rw e refl)

    pub ensure_ebs-Grows :
        (t : Bytes) (p : Pricer F decode get_products)
        → Grows F p.book (ensure_ebs F decode get_products t p).1.book
    ensure_ebs-Grows t p = elim (Bool-cases (has_ebs F t p.book)) [
      | inl h ↦ rw (ensure_ebs_cached t p h) (Grows-refl F p.book)
      | inr h ↦
          elim (Option-cases
            (price_in F decode get_products (get_products p.requests (ebs_request p.region t)))) [
              | inl e ↦ rw (ensure_ebs_unpriced t p h e) (Grows-refl F p.book)
              | inr (v, e) ↦
                  rw (ensure_ebs_priced t p v h e) (set_ebs_gb_month-Grows F t v p.book h)
            ]
    ]

    -- With an API that answers, the rate is in the book afterwards, for one request if it was not.
    pub ensure_ebs-answered :
        (t : Bytes) (p : Pricer F decode get_products)
        → IsAnswering
        → IsThrifty p
        → IsThrifty (ensure_ebs F decode get_products t p).1
          × (has_ebs F t (ensure_ebs F decode get_products t p).1.book ≡ true)
    unfolding has_ebs set_ebs_gb_month
    ensure_ebs-answered t p answers thrifty = elim (Bool-cases (has_ebs F t p.book)) [
      | inl h ↦ rw (ensure_ebs_cached t p h) (thrifty, h)
      | inr h ↦
          let (v, e) = answers p.requests (ebs_request p.region t) in
          rw (ensure_ebs_priced t p v h e) (
            omega (
              arith,
              length-append p.requests (ebs_request p.region t ∷ []),
              length_missing t v p.book.ebs_rates h,
            ),
            ground (arith, has-insert t t v p.book.ebs_rates, eq_refl t),
          )
    ]

    pub ensure_ebs_known :
        (t : Bytes) (p : Pricer F decode get_products)
        → has_ebs F t p.book ≡ true
        → (ensure_ebs F decode get_products t p).1 ≡ p
    ensure_ebs_known t p h = rw (ensure_ebs_cached t p h) refl
