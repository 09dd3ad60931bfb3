-- ===== src/Zfs/Catalog.antt =====
-- The regions of the disk and the tenant catalog of runtime/src/zfs.rs: `region_bounds`,
-- `region_count`, `CatalogEntry`, `free_region`, `background_tenants` and `validate_catalog`.
--
-- The catalog directory is a list of the tenants with their entries, in the order of `read_dir`. The
-- JSON of an entry and its file are not modelled.
pub mod Regions
pub mod Valid
pub mod Grown
use enclave_runtime.Prelude.{
  ℕ, zero, suc, ◌+◌, ◌-◌, ◌*◌, ◌/◌, ◌^◌, max, Bool, true, false, ◌&&◌, not, Option, none, some,
  List, [], ◌∷◌, Bytes, ltb, leb, map, retain, any, if◌then◌else◌, bytes_eq, nat_eq, ◌==◌,
}
use enclave_runtime.Prelude.Map.{Map}
use enclave_runtime.Prelude.Result.{Result, ok, err, ensure, ◌>>=◌, ◌>>◌}

abbrev pub sectors_per_mib : ℕ
sectors_per_mib = 2048

abbrev pub default_region_mib : ℕ
default_region_mib = 200

-- checked_mul and checked_add on u64
unfoldable pub checked : ℕ → Option ℕ
checked n = if ltb n (2 ^ 64) then some n else none

abbrev pub and_then {ℓ κ} : {A : Type ℓ} {B : Type κ} → Option A → (A → Option B) → Option B
and_then none f = none
and_then (some a) f = f a

unfoldable pub region_bounds : ℕ → ℕ → ℕ → Option (ℕ × ℕ)
unfolding checked
region_bounds index region_sectors disk_sectors =
    and_then (checked (index * region_sectors)) (λ offset.
      and_then (checked (offset + region_sectors))
        (λ end. if leb end disk_sectors then some (offset, region_sectors) else none))

unfoldable pub region_count : ℕ → ℕ → ℕ
region_count region_sectors disk_sectors = disk_sectors / max region_sectors 1

pub record CatalogEntry : Type 0 where
  pub version : ℕ
  pub pool_id : Bytes
  pub region : ℕ
  pub genesis : Bytes
  pub background : Bool

abbrev pub Catalog : Type 0
Catalog = Map Bytes CatalogEntry

-- The regions that are taken, and the pool ids.
abbrev pub regions : Catalog → List ℕ
regions [] = []
regions ((id, e) ∷ c) = e.region ∷ regions c

abbrev pub pool_ids : Catalog → List Bytes
pool_ids [] = []
pool_ids ((id, e) ∷ c) = e.pool_id ∷ pool_ids c

-- BTreeSet::contains
unfoldable pub contains_region : ℕ → List ℕ → Bool
contains_region r [] = false
contains_region r (x ∷ xs) = let rest = contains_region r xs in if x == r then true else rest

unfoldable pub contains_id : Bytes → List Bytes → Bool
contains_id i [] = false
contains_id i (x ∷ xs) = let rest = contains_id i xs in if x == i then true else rest

-- (r..r + n).find(|r| !taken.contains(r))
unfoldable pub find_free : ℕ → ℕ → List ℕ → Option ℕ
unfolding contains_region
find_free zero r taken = none
find_free (suc n) r taken = elim (contains_region r taken) [
  | false ↦ some r
  | true ↦ find_free n (r + 1) taken
]

unfoldable pub free_region : ℕ → Catalog → Option ℕ
unfolding find_free
free_region max_pools c = find_free (max_pools - 1) 1 (regions c)

unfoldable pub background_tenants : Catalog → List Bytes
background_tenants [] = []
background_tenants ((id, e) ∷ c) =
    let rest = background_tenants c in if e.background then id ∷ rest else rest

pub data CatalogError : Type 0 where
  unknown_version : CatalogError
  out_of_range shared_region : ℕ → CatalogError
  shared_pool_id : CatalogError

-- The loop of `validate_catalog`, with the regions and the ids it has seen.
unfoldable pub validate_from : ℕ → List ℕ → List Bytes → Catalog → Result CatalogError (Unit {0})
unfolding contains_region contains_id
validate_from max_pools seen ids [] = ok tt
validate_from max_pools seen ids ((id, e) ∷ c) = do
  ensure (e.version == 1) unknown_version
  ensure (leb 1 e.region && ltb e.region max_pools) (out_of_range e.region)
  ensure (not (contains_region e.region seen)) (shared_region e.region)
  ensure (not (contains_id e.pool_id ids)) shared_pool_id
  validate_from max_pools (e.region ∷ seen) (e.pool_id ∷ ids) c

unfoldable pub validate_catalog : ℕ → Catalog → Result CatalogError (Unit {0})
unfolding validate_from
validate_catalog max_pools c = validate_from max_pools [] [] c

-- The entry that `create_tenant` writes, and the one that `mark_background` does.
unfoldable pub new_entry : Bytes → ℕ → Bytes → CatalogEntry
new_entry pool_id region genesis = record {
  version = 1;
  pool_id = pool_id;
  region = region;
  genesis = genesis;
  background = false;
}

unfoldable pub with_background : CatalogEntry → CatalogEntry
with_background e = record e { background = true }
