-- ===== src/Store/Types.antt =====
-- runtime/src/store/error.rs and the types of runtime/src/store/backend/mod.rs.
--
-- Keys and bodies are byte strings. A time is a number. The text of an error is not modelled where
-- the program only shows it to a person.
use enclave_runtime.Prelude.{ℕ, Bool, Option, none, some, Bytes, []}
use enclave_runtime.Prelude.Map.{Map}
use enclave_runtime.Prelude.Result.{Result}

pub data StoreError : Type 0 where
  not_found access_denied already_exists is_directory not_directory not_empty : StoreError
  name_too_long illegal_byte_sequence file_too_large not_supported not_permitted : StoreError
  invalid : Bytes → StoreError
  out_of_memory loop cross_device bad_descriptor would_block conflict : StoreError
  no_filesystem : StoreError
  integrity : Bytes → StoreError
  rollback : ℕ → ℕ → StoreError
  io_timeout : StoreError
  io network : Bytes → StoreError

abbrev pub StoreResult : Type 0 → Type 0
StoreResult A = Result StoreError A

pub record Capabilities : Type 0 where
  pub conditional_put : Bool
  pub upload_part_copy : Bool
  pub batch_delete : Bool
  pub metadata_in_listings : Bool
  pub object_lock : Bool

pub data ObjectLockMode : Type 0 where
  governance compliance : ObjectLockMode

pub record ObjectLock : Type 0 where
  pub mode : ObjectLockMode
  pub retain_until : ℕ

abbrev pub Metadata : Type 0
Metadata = Map Bytes Bytes

pub record BlobMeta : Type 0 where
  pub key : Bytes
  pub e_tag : Bytes
  pub size : ℕ
  pub last_modified : ℕ
  pub content_type : Option Bytes
  pub metadata : Metadata
  pub is_dir_marker : Bool

pub record GetBlobOutput : Type 0 where
  pub meta : BlobMeta
  pub body : Bytes

pub record PutBlobInput : Type 0 where
  pub key : Bytes
  pub body : Bytes
  pub metadata : Metadata
  pub content_type : Option Bytes
  pub object_lock : Option ObjectLock

-- PutBlobInput::new and PutBlobInput::with_object_lock
unfoldable pub new_put : Bytes → Bytes → PutBlobInput
new_put key body = record {
  key = key;
  body = body;
  metadata = [];
  content_type = none;
  object_lock = none;
}

unfoldable pub with_object_lock : PutBlobInput → ObjectLock → PutBlobInput
with_object_lock input lock = record input { object_lock = some lock }

pub record CopyBlobInput : Type 0 where
  pub source_key : Bytes
  pub destination_key : Bytes
  pub replace_metadata : Option Metadata
  pub replace_content_type : Option Bytes

pub record CompletedPart : Type 0 where
  pub part_number : ℕ
  pub e_tag : Bytes
