-- ===== src/Zfs/Catalog/Grown.antt =====
-- `create_tenant` and `mark_background` of runtime/src/zfs.rs: the catalog stays valid.
use mathlib.Core.Path.{subst}
use enclave_runtime.Prelude.{
  ℕ, ◌-◌, ◌≡◌, refl, false, some, [], ◌∷◌, Bytes, arith, bytes_eq, nat_eq,
}
use enclave_runtime.Prelude.Map.{insert, remove}
use enclave_runtime.Zfs.Catalog.{
  Catalog, regions, pool_ids, contains_region, contains_id, free_region, new_entry,
}
use enclave_runtime.Zfs.Catalog.Valid.{IsValid, Found, free_region-Found}

regions-remove :
    (r : ℕ) (id : Bytes) (c : Catalog)
    → contains_region r (regions c) ≡ false
    → contains_region r (regions (remove id c)) ≡ false
unfolding contains_region remove
regions-remove r id [] h = refl
regions-remove r id ((j, e) ∷ c) h = ground (arith, regions-remove r id c)

pool_ids-remove :
    (i id : Bytes) (c : Catalog)
    → contains_id i (pool_ids c) ≡ false
    → contains_id i (pool_ids (remove id c)) ≡ false
unfolding contains_id remove
pool_ids-remove i id [] h = refl
pool_ids-remove i id ((j, e) ∷ c) h = ground (arith, pool_ids-remove i id c)

remove-IsValid :
    (max_pools : ℕ) (id : Bytes) (c : Catalog)
    → IsValid max_pools c
    → IsValid max_pools (remove id c)
unfolding remove
remove-IsValid max_pools id [] v = tt
remove-IsValid max_pools id ((j, e) ∷ c) v = ground (
  arith,
  remove-IsValid max_pools id c,
  regions-remove e.region id c,
  pool_ids-remove e.pool_id id c,
)

-- A tenant that is created in the region found for it, under a pool id that no entry has, leaves the
-- catalog valid.
pub insert-IsValid :
    (max_pools r : ℕ) (tenant pool_id genesis : Bytes) (c : Catalog)
    → IsValid max_pools c
    → free_region max_pools c ≡ some r
    → contains_id pool_id (pool_ids c) ≡ false
    → IsValid max_pools (insert tenant (new_entry pool_id r genesis) c)
unfolding insert new_entry
insert-IsValid max_pools r tenant pool_id genesis c v free fresh =
    let (low, high, alone) =
      subst (Found (max_pools - 1) 1 (regions c)) free (free_region-Found max_pools c) in
    (
      refl,
      low,
      omega (arith, low, high),
      regions-remove r tenant c alone,
      pool_ids-remove pool_id tenant c fresh,
      remove-IsValid max_pools tenant c v,
    )
