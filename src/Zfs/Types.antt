-- ===== src/Zfs/Types.antt =====
-- What runtime/src/zfs.rs reaches outside itself, its errors, and its run.
--
-- `Host` holds the roots bucket behind `Backend`, the trusted clock, `getrandom`, the commands
-- `zpool` and `zfs` with the kernel's statistics, and the libraries for signatures, hashes and hex.
-- Its `World` is everything that may change while the code runs, what other enclaves and the host do
-- included: every call may find it changed. The text of an error is not modelled.
use enclave_runtime.Prelude.{ℕ, ◌+◌, Bool, Option, none, some, List, Bytes}
use enclave_runtime.Prelude.Result.{ok, err}
use enclave_runtime.Prelude.Exec.{Exec}
use enclave_runtime.Store.Types.{
  StoreError, StoreResult, PutBlobInput, compliance, new_put, with_object_lock,
}

pub record KeyMaterial : Type 0 where
  pub fs_uuid : Bytes
  pub public_key : Bytes
  pub signing_key : Bytes

pub record Host : Type 1 where
  pub World : Type 0
  -- Backend::get_retained_blob, its body, and Backend::put_blob_if_not_exists
  pub get_retained_blob : Bytes → World → StoreResult Bytes × World
  pub put_blob_if_not_exists : PutBlobInput → World → StoreResult (Unit {0}) × World
  -- TrustedClock::now, and getrandom::fill of so many bytes
  pub now : World → Option ℕ × World
  pub fill : ℕ → World → Option Bytes × World
  -- The commands `zpool` and `zfs` with their arguments: what they print, if they succeed
  pub run : Bytes → List Bytes → World → Option Bytes × World
  -- reading and writing a file of /proc
  pub read_file : Bytes → World → Option Bytes × World
  pub write_file : Bytes → Bytes → World → Option (Unit {0}) × World
  -- sign::sign, sign::verify, Hash256::of and hex::encode
  pub sign : Bytes → Bytes → Bytes
  pub verify : Bytes → Bytes → Bytes → Bool
  pub hash : Bytes → Bytes
  pub hex : Bytes → Bytes

pub data ZfsError : Type 0 where
  store : StoreError → ZfsError
  clock_failed no_entropy command_failed file_failed : ZfsError
  nothing_written : ZfsError
  gave_up : ZfsError
  another_writer : ℕ → ZfsError
  stopped : ZfsError
  marker_not_past : ℕ → ZfsError
  superseded : ℕ → ZfsError
  no_anchors : ZfsError
  below_floor : ℕ → ZfsError
  broken_chain : ℕ → ZfsError
  another_history already_has_anchors device_holds_a_pool bad_guid : ZfsError
  refused : ZfsError
  disk_full : ZfsError
  region_does_not_fit : ℕ → ZfsError
  no_catalog_entry no_storage : ZfsError
  bad_catalog : ZfsError
  -- a loop of the model that ran out of its fuel
  stuck : ZfsError

module _ (h : Host) where
  abbrev pub Run : Type 0 → Type 0
  Run A = Exec h.World ZfsError A

  -- A call of the world that answers with an Option.
  abbrev pub call : {A : Type 0} → (h.World → Option A × h.World) → ZfsError → Run A
  call m e w = let (r, w') = m w in elim r [ none ↦ (err e, w') | some a ↦ (ok a, w') ]

  abbrev pub command : Bytes → List Bytes → Run Bytes
  command program args = call (h.run program args) ZfsError.command_failed

  -- retain_until
  unfoldable pub retain_until : ℕ → Run ℕ
  retain_until retention w =
      let (r, w') = h.now w in
      elim r [ none ↦ (err ZfsError.clock_failed, w') | some t ↦ (ok (t + retention), w') ]

  -- The locked object of an anchor or a generation.
  abbrev pub locked : Bytes → Bytes → ℕ → PutBlobInput
  locked key body until =
      with_object_lock (new_put key body) (record { mode = compliance; retain_until = until })
