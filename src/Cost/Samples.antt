-- ===== src/Cost/Samples.antt =====
-- Inputs for the tests: whole dollars as numbers, one price for everything, two instances.
use pok.Prelude.Decimal.{read_digits}
use pok.Cost.Estimate.{ComputeResource}
use pok.Prelude.Floats.{Floats}
use pok.Cost.Inventory.{Instance, Volume}
use pok.Cost.Prices.{Request, Pricer, new_price_book}
use pok.Prelude.Bytes.{Bytes, bytes}
use pok.Prelude.Int.{ℤ, pos, negsuc}
use pok.Prelude.{ℕ, ◌+◌, ◌*◌, ◌/◌, true, false, Option, none, some, List, [], ◌∷◌}

abbrev pub whole_of : ℤ → ℕ
whole_of (pos n) = n
whole_of (negsuc n) = 0

abbrev pub dollars : Floats
dollars = record {
  Float = ℕ;
  of_int = whole_of;
  to_int = pos;
  add = λ a b. a + b;
  mul = λ a b. a * b;
  div = λ a b. a / b;
  parse_float = λ b. (read_digits 0 b, true);
}

abbrev pub one_offer : Bytes → Option (List (List Bytes))
one_offer doc = some ((doc ∷ []) ∷ [])

abbrev pub five_dollars : List Request → Request → Option (List Bytes)
five_dollars sent q = some (bytes "5" ∷ [])

abbrev pub fresh : Pricer dollars one_offer five_dollars
fresh = record { region = bytes "eu-west-1"; book = new_price_book dollars 1; requests = [] }

-- The rate of the instances is cached already.
abbrev pub priced : Pricer dollars one_offer five_dollars
priced = record fresh {
  book = record { instance_rates = (bytes "t4g", 3) ∷ []; ebs_rates = []; ipv4_hourly = 1 };
}

abbrev pub disk : Volume
disk = record {
  volume_id = some (bytes "vol-1");
  volume_type = bytes "gp3";
  size = some (pos 1460);
  attachments = some (bytes "i-1") ∷ [];
}

abbrev pub listed : List (List Instance)
listed =
    (record {
      instance_id = some (bytes "i-1");
      instance_type = bytes "t4g";
      state = some (bytes "running");
      tags = [];
      public_ip_address = some (bytes "1.2.3.4");
    }
      ∷ [])
    ∷ (record {
      instance_id = some (bytes "i-2");
      instance_type = bytes "t4g";
      state = some (bytes "stopped");
      tags = [];
      public_ip_address = none;
    }
        ∷ [])
    ∷ []

abbrev pub worker : ComputeResource
worker = record {
  instance_id = bytes "i-1";
  name = [];
  instance_type = bytes "t4g";
  kind = [];
  state = bytes "running";
  running = true;
  has_public_ip = true;
  volumes =
      record { volume_id = bytes "vol-1"; volume_type = bytes "gp3"; size_gib = pos 1460 } ∷ [];
}

abbrev pub spare : ComputeResource
spare = record {
  instance_id = bytes "i-2";
  name = [];
  instance_type = bytes "t4g";
  kind = [];
  state = bytes "stopped";
  running = false;
  has_public_ip = false;
  volumes = [];
}
