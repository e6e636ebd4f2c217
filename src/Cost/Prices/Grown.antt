-- ===== src/Cost/Prices/Grown.antt =====
-- How the book of rates grows: by a rate that it did not have.
use pok.Prelude.Floats.{Floats}
use pok.Cost.Prices.{PriceBook, set_instance_hourly, set_ebs_gb_month, has_instance, has_ebs}
use pok.Prelude.Bytes.{Bytes, bytes_key}
use pok.Prelude.Lists.{length}
use pok.Prelude.Maps.{Map, lookup, has, insert, lookup-insert, length-insert, lookup_missing}
use pok.Prelude.Tests.{eq_iff}
use pok.Prelude.{ℕ, ◌+◌, ◌≡◌, refl, false, some, arith}

pub length_missing :
    {A : Type 0} (t : Bytes) (v : A) (m : Map Bytes A)
    → has t m ≡ false
    → length (insert t v m) ≡ length m + 1
length_missing t v m h = ground (arith, length-insert t v m)

module _ (F : Floats) where
  -- The second book has every rate of the first, unchanged.
  pub record Grows (b b' : PriceBook F) : Type 0 where
    pub instances :
        (t : Bytes) (v : F.Float)
        → lookup t b.instance_rates ≡ some v
        → lookup t b'.instance_rates ≡ some v
    pub volumes :
        (t : Bytes) (v : F.Float) → lookup t b.ebs_rates ≡ some v → lookup t b'.ebs_rates ≡ some v
    pub ipv4 : b'.ipv4_hourly ≡ b.ipv4_hourly

  pub Grows-refl : (b : PriceBook F) → Grows b b
  Grows-refl b = record { instances = λ t v h. h; volumes = λ t v h. h; ipv4 = refl }

  pub Grows-trans : (a b c : PriceBook F) → Grows a b → Grows b c → Grows a c
  Grows-trans a b c g h = record {
    instances = λ t v e. h.instances t v (g.instances t v e);
    volumes = λ t v e. h.volumes t v (g.volumes t v e);
    ipv4 = cc (g.ipv4, h.ipv4);
  }

  -- The number of rates in the book.
  abbrev pub count_rates : PriceBook F → ℕ
  count_rates b = length b.instance_rates + length b.ebs_rates

  pub set_instance_hourly-Grows :
      (t : Bytes) (v : F.Float) (b : PriceBook F)
      → has_instance F t b ≡ false
      → Grows b (set_instance_hourly F t v b)
  unfolding has_instance set_instance_hourly
  set_instance_hourly-Grows t v b h = record {
    instances = λ u w e. ground (
      arith,
      lookup-insert t u v b.instance_rates,
      lookup_missing t b.instance_rates,
      eq_iff t u,
    );
    volumes = λ u w e. e;
    ipv4 = refl;
  }

  pub set_ebs_gb_month-Grows :
      (t : Bytes) (v : F.Float) (b : PriceBook F)
      → has_ebs F t b ≡ false
      → Grows b (set_ebs_gb_month F t v b)
  unfolding has_ebs set_ebs_gb_month
  set_ebs_gb_month-Grows t v b h = record {
    instances = λ u w e. e;
    volumes = λ u w e.
        ground (arith, lookup-insert t u v b.ebs_rates, lookup_missing t b.ebs_rates, eq_iff t u);
    ipv4 = refl;
  }
