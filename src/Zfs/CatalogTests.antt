-- ===== src/Zfs/CatalogTests.antt =====
-- The theorems on the catalog and the tenants at concrete inputs.
use enclave_runtime.Prelude.{
  ℕ, ◌+◌, ◌≡◌, ◌≤◌, refl, Bool, true, false, some, [], ◌∷◌, Bytes, arith, ascii, bytes_eq,
}
use enclave_runtime.Prelude.Map.{get, insert}
use enclave_runtime.Prelude.Result.{err}
use enclave_runtime.Prelude.Exec.{pure}
use enclave_runtime.Zfs.Types.{Run, disk_full, stuck}
use enclave_runtime.Zfs.Pool.{Pool}
use enclave_runtime.Zfs.Catalog.{
  CatalogEntry, Catalog, region_bounds, free_region, new_entry, contains_region, contains_id,
  pool_ids,
}
use enclave_runtime.Zfs.Catalog.Regions.{region_bounds_apart}
use enclave_runtime.Zfs.Catalog.Valid.{IsValid}
use enclave_runtime.Zfs.Catalog.Grown.{insert-IsValid}
use enclave_runtime.Zfs.Tenants.{Config, State, tenant_pool}
use enclave_runtime.Zfs.Tenants.Slots.{lookups, lookups_exhaust}
use enclave_runtime.Zfs.Tests.{toy, toy_keys}
use enclave_runtime.Zfs.PoolTests.{pool}

abbrev entry : Bytes → ℕ → CatalogEntry
entry id region = record {
  version = 1;
  pool_id = id;
  region = region;
  genesis = [];
  background = true;
}

abbrev two : Catalog
two = (ascii "a", entry (ascii "1") 1) ∷ (ascii "b", entry (ascii "2") 3) ∷ []

two-IsValid : IsValid 8 two
unfolding contains_region contains_id
two-IsValid =
    (refl, omega arith, omega arith, refl, refl, (refl, omega arith, omega arith, refl, refl, tt))

free_region-two : free_region 8 two ≡ some 2
unfolding free_region
free_region-two = refl

new_id : contains_id (ascii "3") (pool_ids two) ≡ false
unfolding contains_id
new_id = refl

insert-IsValid_example : IsValid 8 (insert (ascii "c") (new_entry (ascii "3") 2 []) two)
insert-IsValid_example =
    insert-IsValid 8 2 (ascii "c") (ascii "3") [] two two-IsValid free_region-two new_id

region_one : region_bounds 1 409600 4096000 ≡ some (409600, 409600)
unfolding region_bounds
region_one = refl

region_nine : region_bounds 9 409600 4096000 ≡ some (3686400, 409600)
unfolding region_bounds
region_nine = refl

region_bounds_apart_example : (409600 + 409600 ≤ 3686400) × (3686400 + 409600 ≤ 4096000)
region_bounds_apart_example =
    region_bounds_apart 1 9 409600 4096000 409600 409600 3686400 409600 (omega arith) region_one
      region_nine

-- A disk of three regions.
abbrev config : Config
config = record {
  keys = toy_keys;
  prefix = ascii "p/";
  retention = 3600;
  is_pool = true;
  region_sectors = 409600;
  disk_sectors = 1228800;
  max_pools = 3;
  generation = 0;
  control = pool;
}

abbrev no_device : Bytes → ℕ × ℕ → Run toy Bytes
no_device id bounds = pure (ascii "/dev/mapper/x")

abbrev empty_device : Pool → Run toy Bool
empty_device p = pure false

abbrev made : Pool → Run toy (Unit {0})
made p = pure tt

abbrev fresh : State toy no_device empty_device made config
fresh = record { world = []; slots = []; catalog = []; control_last = err stuck }

lookups_exhaust_example :
    (let after =
        lookups toy no_device empty_device made config (ascii "x" ∷ ascii "y" ∷ []) fresh in
      ((tenant_pool toy no_device empty_device made config (ascii "z") true after).0
        ≡ err disk_full)
      × (after.catalog ≡ []))
unfolding contains_id get
lookups_exhaust_example =
    lookups_exhaust toy no_device empty_device made config (ascii "x" ∷ ascii "y" ∷ []) (ascii "z")
      true fresh (refl, refl, refl, (refl, refl, refl, tt)) refl refl refl
