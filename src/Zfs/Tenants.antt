-- ===== src/Zfs/Tenants.antt =====
-- `Zfs` of runtime/src/zfs.rs: the control pool, the tenant pools and their slots.
--
-- The state is the world, the slots of `tenants`, the catalog on the control pool, and the control
-- pool's newest anchor. A slot holds the tenant's pool once it is open: a OnceCell. One call runs at a
-- time; `create_lock` and the OnceCells see to that for each tenant in the program. `map_region`, which
-- runs cryptsetup, and the two parts of `Pool::create` that run commands are parameters. The paths of
-- the pools are not modelled.
pub mod Slots
use enclave_runtime.Prelude.{
  ℕ, ◌+◌, Bool, true, false, not, Option, none, some, List, [], ◌∷◌, ◌++◌, Bytes, ascii, ltb,
  length, replicate, if◌then◌else◌, bytes_eq, nat_eq, ◌==◌,
}
use enclave_runtime.Prelude.Map.{Map, get, insert}
use enclave_runtime.Prelude.Result.{Result, ok, err, ensure}
use enclave_runtime.Prelude.Exec.{Exec, pure, raise, lift, lift_option, ◌>>=◌, ◌>>◌}
use enclave_runtime.Zfs.Types.{
  Host, KeyMaterial, Run, ZfsError, disk_full, region_does_not_fit, no_catalog_entry, no_storage,
  no_entropy, call,
}
use enclave_runtime.Zfs.Anchor.{tenant, zero_hash}
use enclave_runtime.Zfs.Pool.{Pool, Last, anchor}
use enclave_runtime.Zfs.Pool.Open.{Opened, resume, create}
use enclave_runtime.Zfs.Catalog.{
  CatalogEntry, Catalog, region_bounds, free_region, new_entry, with_background,
}

-- What `Zfs` holds that does not change.
pub record Config : Type 0 where
  pub keys : KeyMaterial
  pub prefix : Bytes
  pub retention : ℕ
  pub is_pool : Bool
  pub region_sectors : ℕ
  pub disk_sectors : ℕ
  pub max_pools : ℕ
  pub generation : ℕ
  pub control : Pool

pub data Arrival : Type 0 where
  new returning : Arrival

module _ (h : Host) (map_region : Bytes → ℕ × ℕ → Run h Bytes) (pool_present : Pool → Run h Bool)
    (make : Pool → Run h (Unit {0})) (c : Config) where
  pub record State : Type 0 where
    pub world : h.World
    pub slots : Map Bytes (Option Opened)
    pub catalog : Catalog
    pub control_last : Last

  abbrev pub Managed : Type 0 → Type 0
  Managed A = Exec State ZfsError A

  -- A step on the world alone.
  abbrev pub on_world : {A : Type 0} → Run h A → Managed A
  on_world m s = let (r, w) = m s.world in (r, record s { world = w })

  -- tenant_spec
  unfoldable pub tenant_spec : Bytes → Bytes → ℕ → Run h Pool
  tenant_spec tenant_id pool_id region = do
    (offset, len) ←
        lift_option (λ _. region_bounds region c.region_sectors c.disk_sectors)
          (region_does_not_fit region)
    mapped ← elim c.is_pool [ true ↦ map_region pool_id (offset, len) | false ↦ pure [] ]
    pure (record {
      keys = c.keys;
      prefix = c.prefix;
      anchor_prefix = c.prefix ++ (ascii "zfs/pools/" ++ (h.hex pool_id ++ ascii "/"));
      retention = c.retention;
      name = ascii "p" ++ h.hex pool_id;
      mapped = mapped;
      kind = tenant;
      pool_id = pool_id;
      tenant_id = tenant_id;
      pool = c.is_pool;
      pool_guid = 0;
      genesis = zero_hash;
      generation = c.generation;
    })

  unfoldable pub import_tenant : Bytes → CatalogEntry → Managed Opened
  unfolding tenant_spec
  import_tenant tenant_id entry = on_world (
      tenant_spec tenant_id entry.pool_id entry.region >>= λ p.
      resume h p none (some entry.genesis))

  unfoldable pub anchor_control : Managed (Unit {0})
  anchor_control s =
      let ((r, last), w) = anchor h c.control s.control_last s.world in
      (r, record s { world = w; control_last = last })

  unfoldable pub write_catalog : Bytes → CatalogEntry → Managed (Unit {0})
  write_catalog tenant_id entry s = (ok tt, record s { catalog = insert tenant_id entry s.catalog })

  unfoldable pub create_tenant : Bytes → Managed Opened
  unfolding tenant_spec anchor_control write_catalog
  create_tenant tenant_id = do
    region ← lift_option (λ s. free_region c.max_pools s.catalog) disk_full
    pool_id ← on_world (call h (h.fill 16) no_entropy)
    o ← on_world (tenant_spec tenant_id pool_id region >>= create h pool_present make)
    write_catalog tenant_id (new_entry pool_id region o.pool.genesis)
    anchor_control
    pure o

  unfoldable pub open_or_create_tenant : Bytes → Bool → Managed Opened
  unfolding import_tenant create_tenant
  open_or_create_tenant tenant_id create s = elim (get tenant_id s.catalog) [
    | some entry ↦ import_tenant tenant_id entry s
    | none ↦ elim create [ true ↦ create_tenant tenant_id s | false ↦ (err no_storage, s) ]
  ]

  -- The part of `tenant_pool` under the lock: a slot for the tenant, if one is free.
  unfoldable pub take_slot : Bytes → Managed (Unit {0})
  take_slot tenant_id s = elim (get tenant_id s.slots) [
    | some cell ↦ (ok tt, s)
    | none ↦
        if ltb (length s.slots + 1) c.max_pools
        then (ok tt, record s { slots = insert tenant_id none s.slots })
        else (err disk_full, s)
  ]

  -- get_or_try_init on the tenant's slot
  unfoldable pub init_slot : Bytes → Bool → Managed Opened
  unfolding open_or_create_tenant
  init_slot tenant_id create s = elim (get tenant_id s.slots) [
    | some (some o) ↦ (ok o, s)
    | _ ↦
        (open_or_create_tenant tenant_id create >>= λ o s'.
        (ok o, record s' { slots = insert tenant_id (some o) s'.slots }))
          s
  ]

  unfoldable pub tenant_pool : Bytes → Bool → Managed Opened
  unfolding take_slot init_slot
  tenant_pool tenant_id create = take_slot tenant_id >> init_slot tenant_id create

  -- `tenant_dir`, up to the path of the pool's data
  unfoldable pub tenant_dir : Bytes → Managed (Opened × Arrival)
  unfolding tenant_pool
  tenant_dir tenant_id s =
      let arrival : Arrival = elim (get tenant_id s.slots) [ none ↦ new | some cell ↦ returning ] in
      (tenant_pool tenant_id true >>= λ o. pure (o, arrival)) s

  unfoldable pub existing_tenant_dir : Bytes → Managed Opened
  unfolding tenant_pool
  existing_tenant_dir tenant_id = tenant_pool tenant_id false

  -- `imported`, and the anchor of a pool in its slot
  unfoldable pub imported : Bytes → State → Option Opened
  imported tenant_id s = elim (get tenant_id s.slots) [ some (some o) ↦ some o | _ ↦ none ]

  unfoldable pub mark_background : Bytes → Managed (Unit {0})
  unfolding write_catalog anchor_control
  mark_background tenant_id = do
    entry ← lift_option (λ s. get tenant_id s.catalog) no_catalog_entry
    elim entry.background [
      | true ↦ pure tt
      | false ↦ write_catalog tenant_id (with_background entry) >> anchor_control
    ]
