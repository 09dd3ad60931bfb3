-- ===== src/Zfs/Pool/Open.antt =====
-- `Pool::attach`, `Pool::load`, `Pool::find_tip`, `Pool::create` and `Pool::open` of
-- runtime/src/zfs.rs.
--
-- A pool is opened or created with what the manager settled for it, a `Pool` whose guid is 0 and whose
-- genesis is zero. Creating the datasets and mounting them are commands that only succeed or fail, and
-- `pool_present` asks the device.
pub mod Admission
pub mod Resumed
use enclave_runtime.Prelude.{
  ℕ, ◌-◌, Bool, true, false, not, Option, none, some, List, [], ◌∷◌, ◌++◌, Bytes, ascii, ltb, leb,
  if◌then◌else◌, bytes_eq, nat_eq, ◌==◌,
}
use enclave_runtime.Prelude.Result.{Result, ok, err, ensure}
use enclave_runtime.Prelude.Exec.{pure, raise, lift, lift_option, ◌>>=◌, ◌>>◌}
use enclave_runtime.Prelude.Text.{trim, to_string}
use enclave_runtime.Zfs.Types.{
  Host, Run, ZfsError, no_anchors, below_floor, broken_chain, another_history, already_has_anchors,
  device_holds_a_pool, refused, file_failed, call, command,
}
use enclave_runtime.Zfs.Tip.{chain_tip}
use enclave_runtime.Zfs.Anchor.{Anchor, hash, decode_and_verify}
use enclave_runtime.Zfs.Kernel.{loaded_txg, pool_guid}
use enclave_runtime.Zfs.Admit.{admit}
use enclave_runtime.Zfs.Generation.{from_store, retained_body}
use enclave_runtime.Zfs.Pool.{Pool, anchor_key, seal_and_publish}

-- A pool that is in service, with its newest anchor.
pub record Opened : Type 0 where
  pub pool : Pool
  pub last : Anchor

module _ (h : Host) where
  unfoldable pub load : Pool → ℕ → Run h Anchor
  load p seq = retained_body h (anchor_key h p seq) >>= λ bytes.
      lift (from_store h (decode_and_verify h bytes p.keys seq p.pool_id))

  unfoldable pub find_tip : Pool → Run h (Option ℕ)
  find_tip p = chain_tip h (anchor_key h p)

  -- The checks of `open` on the chain: its floor, the link to the anchor before, and the genesis, which
  -- it returns with the newest anchor.
  abbrev pub above : Option ℕ → ℕ → Result ZfsError (Unit {0})
  above none seq = ok tt
  above (some min) seq = ensure (leb min seq) (below_floor seq)

  abbrev pub is_history : Option Bytes → Bytes → Result ZfsError (Unit {0})
  is_history none genesis = ok tt
  is_history (some expected) genesis = ensure (genesis == expected) another_history

  unfoldable pub linked : Pool → Anchor → ℕ → Run h (Unit {0})
  unfolding load
  linked p tip seq = elim (ltb 0 seq) [
    | false ↦ pure tt
    | true ↦
        load p (seq - 1) >>= λ before. lift (ensure (hash h before == tip.prev) (broken_chain seq))
  ]

  unfoldable pub genesis_of : Pool → Anchor → ℕ → Run h Bytes
  unfolding load
  genesis_of p tip seq = elim (seq == 0) [
    | true ↦ pure (hash h tip)
    | false ↦ load p 0 >>= λ first. pure (hash h first)
  ]

  -- The part of `open` that imports a real pool and admits what was loaded.
  unfoldable pub admit_loaded : Pool → Anchor → Option ℕ → Bytes → ℕ → Run h (Unit {0})
  admit_loaded p tip loaded held guid = elim (admit h tip loaded (trim held) guid) [
    | ok u ↦ command h (ascii "zfs") (ascii "mount" ∷ ascii "-a" ∷ []) >> pure tt
    | err why ↦ λ w. (err refused, (h.run (ascii "zpool") (ascii "export" ∷ p.name ∷ []) w).1)
  ]

  abbrev pub dbgmsg : Bytes
  dbgmsg = ascii "/proc/spl/kstat/zfs/dbgmsg"

  unfoldable pub import_pool : Pool → Anchor → Run h (Unit {0})
  unfolding admit_loaded
  import_pool p tip = do
    call h (h.write_file dbgmsg (ascii "0")) file_failed
    command h (ascii "zpool") (
        ascii "import"
        ∷ ascii "-f"
        ∷ ascii "-N"
        ∷ ascii "-d"
        ∷ p.mapped
        ∷ ascii "-o"
        ∷ ascii "cachefile=none"
        ∷ to_string tip.pool_guid
        ∷ p.name
        ∷ [])
    notes ← call h (h.read_file dbgmsg) file_failed
    held ← command h (ascii "zfs") (
        ascii "get"
        ∷ ascii "-Hp"
        ∷ ascii "-o"
        ∷ ascii "value"
        ∷ ascii "enclave:anchor"
        ∷ p.name
        ∷ [])
    guid ← pool_guid h p.name
    admit_loaded p tip (loaded_txg notes p.name) held guid

  -- What only a real pool does.
  abbrev pub on_disk : Pool → Run h (Unit {0}) → Run h (Unit {0})
  on_disk p m = elim p.pool [ true ↦ m | false ↦ pure tt ]

  unfoldable pub resume : Pool → Option ℕ → Option Bytes → Run h Opened
  unfolding find_tip load linked genesis_of import_pool
  resume p min_seq expect_genesis = do
    tip_seq ← find_tip p
    seq ← lift_option (λ _. tip_seq) no_anchors
    lift (above min_seq seq)
    tip ← load p seq
    linked p tip seq
    genesis ← genesis_of p tip seq
    lift (is_history expect_genesis genesis)
    on_disk p (import_pool p tip)
    pure (record { pool = record p { genesis = genesis; pool_guid = tip.pool_guid }; last = tip })

  -- The commands of `create` that make a real pool and its datasets.
  abbrev pub format_pool : (Pool → Run h Bool) → (Pool → Run h (Unit {0})) → Pool → Run h ℕ
  format_pool pool_present make p = do
    there ← pool_present p
    lift (ensure (not there) device_holds_a_pool)
    make p
    pool_guid h p.name

  -- `Pool::create`, over what asks the device and what runs the commands.
  unfoldable pub create : (Pool → Run h Bool) → (Pool → Run h (Unit {0})) → Pool → Run h Opened
  unfolding find_tip
  create pool_present make p = do
    tip ← find_tip p
    lift (ensure (elim tip [ none ↦ true | some t ↦ false ]) already_has_anchors)
    guid ← elim p.pool [ true ↦ format_pool pool_present make p | false ↦ pure 0 ]
    let fresh = record p { pool_guid = guid }
    genesis ← seal_and_publish h fresh none
    pure (record { pool = record fresh { genesis = hash h genesis }; last = genesis })
