-- ===== src/Store/Memory.antt =====
-- runtime/src/store/backend/memory.rs: the in-memory backend, its objects, delete markers and the
-- versions that Object Lock pins.
--
-- The lock makes each method one step on the state. `SystemTime::now()` is an argument `now`, and
-- `etag counter body` stands for the SipHash tag of `siphasher`. The id `mpu-n` of a multipart
-- upload is the number n; counters do not wrap. `list_blobs` is not modelled.
pub mod Multipart
pub mod Calls
pub mod Holds
pub mod Retention
pub mod Lease
use enclave_runtime.Prelude.{
  ℕ, suc, ◌+◌, ◌-◌, Bool, true, false, Option, none, some, List, [], ◌∷◌, Bytes, ltb, leb, length,
  take, drop, min, if◌then◌else◌, bytes_eq, nat_eq, ◌==◌,
}
use enclave_runtime.Prelude.Map.{Map, get, insert, remove}
use enclave_runtime.Prelude.Result.{Result, ok, err}
use enclave_runtime.Store.Types.{
  StoreError, StoreResult, not_found, access_denied, already_exists, invalid, Capabilities,
  ObjectLock, Metadata, BlobMeta, GetBlobOutput, PutBlobInput, CopyBlobInput,
}

pub record StoredBlob : Type 0 where
  pub body : Bytes
  pub e_tag : Bytes
  pub last_modified : ℕ
  pub content_type : Option Bytes
  pub metadata : Metadata
  pub object_lock : Option ObjectLock

-- StoredBlob::is_retained
unfoldable pub is_retained : StoredBlob → ℕ → Bool
is_retained b now = elim b.object_lock [ none ↦ false | some lock ↦ ltb now lock.retain_until ]

pub record MpuPart : Type 0 where
  pub body : Bytes
  pub e_tag : Bytes

pub record ActiveMpu : Type 0 where
  pub key : Bytes
  pub metadata : Metadata
  pub content_type : Option Bytes
  pub object_lock : Option ObjectLock
  pub parts : Map ℕ MpuPart

-- `State`, and the counters of `MemoryBackend` beside it.
pub record State : Type 0 where
  pub objects : Map Bytes StoredBlob
  pub delete_markers : Map Bytes (Unit {0})
  pub pinned : Map Bytes StoredBlob
  pub mpus : Map ℕ ActiveMpu
  pub next_mpu_id : ℕ
  pub next_etag : ℕ
  pub fail_next_put : Option StoreError

abbrev pub new : State
new = record {
  objects = [];
  delete_markers = [];
  pinned = [];
  mpus = [];
  next_mpu_id = 1;
  next_etag = 1;
  fail_next_put = none;
}

-- MemoryBackend::fail_next_put
unfoldable pub set_fail_next_put : StoreError → State → State
set_fail_next_put e s = record s { fail_next_put = some e }

abbrev pub is_some {ℓ} : {A : Type ℓ} → Option A → Bool
is_some none = false
is_some (some a) = true

abbrev pub or_else {ℓ} : {A : Type ℓ} → Option A → Option A → Option A
or_else none o = o
or_else (some a) o = some a

abbrev pub unwrap_or {ℓ} : {A : Type ℓ} → Option A → A → A
unwrap_or none a = a
unwrap_or (some b) a = b

-- `objects.get(key).is_some_and(|b| b.is_retained(now))`
abbrev pub retained_at : Option StoredBlob → ℕ → Bool
retained_at none now = false
retained_at (some b) now = is_retained b now

-- State::current
unfoldable pub current : State → Bytes → Option StoredBlob
current s key = if is_some (get key s.delete_markers) then none else get key s.objects

-- State::retained
unfoldable pub retained : State → Bytes → Option StoredBlob
retained s key = or_else (get key s.pinned) (get key s.objects)

abbrev pub pin : Option StoredBlob → Bytes → ℕ → Map Bytes StoredBlob → Map Bytes StoredBlob
pin none key now pinned = pinned
pin (some b) key now pinned = if is_retained b now then insert key b pinned else pinned

-- State::pin_before_overwrite
unfoldable pub pin_before_overwrite : Bytes → ℕ → State → State
unfolding is_retained
pin_before_overwrite key now s =
    if is_some (get key s.pinned)
    then s
    else record s { pinned = pin (get key s.objects) key now s.pinned }

-- delete_one
unfoldable pub delete_one : Bytes → ℕ → State → State
unfolding is_retained
delete_one key now s =
    if retained_at (get key s.objects) now
    then record s { delete_markers = insert key tt s.delete_markers }
    else record s { objects = remove key s.objects; delete_markers = remove key s.delete_markers }

-- `key.ends_with('/')`
abbrev pub ends_with_slash : Bytes → Bool
ends_with_slash [] = false
ends_with_slash (b ∷ []) = b == b'/'
ends_with_slash (b ∷ c ∷ key) = ends_with_slash (c ∷ key)

-- MemoryBackend::meta_from_stored
unfoldable pub meta_from_stored : Bytes → StoredBlob → BlobMeta
meta_from_stored key b = record {
  key = key;
  e_tag = b.e_tag;
  size = length b.body;
  last_modified = b.last_modified;
  content_type = b.content_type;
  metadata = b.metadata;
  is_dir_marker = ends_with_slash key;
}

unfoldable pub capabilities : Capabilities
capabilities = record {
  conditional_put = true;
  upload_part_copy = true;
  batch_delete = true;
  metadata_in_listings = false;
  object_lock = true;
}

-- MemoryBackend::head_blob
unfoldable pub head_blob : Bytes → State → StoreResult BlobMeta
unfolding current meta_from_stored
head_blob key s = elim (current s key) [
  | none ↦ err not_found
  | some b ↦ ok (meta_from_stored key b)
]

-- The arm of `get_blob` for a range, which is cut at the end of the body.
unfoldable pub slice_range : Option (ℕ × ℕ) → Bytes → StoreResult Bytes
slice_range none body = ok body
slice_range (some (from, to)) body =
    let start = min from (length body) in
    let end = min to (length body) in
    if ltb end start then err (invalid []) else ok (take (end - start) (drop start body))

abbrev pub with_meta : BlobMeta → StoreResult Bytes → StoreResult GetBlobOutput
with_meta meta (ok body) = ok (record { meta = meta; body = body })
with_meta meta (err e) = err e

-- MemoryBackend::get_blob
unfoldable pub get_blob : Bytes → Option (ℕ × ℕ) → State → StoreResult GetBlobOutput
unfolding current meta_from_stored slice_range
get_blob key range s = elim (current s key) [
  | none ↦ err not_found
  | some b ↦ with_meta (meta_from_stored key b) (slice_range range b.body)
]

-- MemoryBackend::get_retained_blob
unfoldable pub get_retained_blob : Bytes → State → StoreResult GetBlobOutput
unfolding retained meta_from_stored
get_retained_blob key s = elim (retained s key) [
  | none ↦ err not_found
  | some b ↦ ok (record { meta = meta_from_stored key b; body = b.body })
]

-- MemoryBackend::delete_blob
unfoldable pub delete_blob : Bytes → ℕ → State → State
unfolding delete_one
delete_blob key now s = delete_one key now s

-- MemoryBackend::delete_blobs
unfoldable pub delete_blobs : List Bytes → ℕ → State → State
unfolding delete_one
delete_blobs [] now s = s
delete_blobs (k ∷ keys) now s = delete_blobs keys now (delete_one k now s)

module _ (etag : ℕ → Bytes → Bytes) where
  -- The version that a PUT at `now` stores, under the tag that the counter gives.
  unfoldable pub stored_at : ℕ → ℕ → PutBlobInput → StoredBlob
  stored_at counter now input = record {
    body = input.body;
    e_tag = etag counter input.body;
    last_modified = now;
    content_type = input.content_type;
    metadata = input.metadata;
    object_lock = input.object_lock;
  }

  -- MemoryBackend::put_blob. The counter is drawn before the object is looked at.
  unfoldable pub put_blob : PutBlobInput → ℕ → State → StoreResult BlobMeta × State
  unfolding stored_at meta_from_stored is_retained
  put_blob input now s = elim s.fail_next_put [
    | some e ↦ (err e, record s { fail_next_put = none })
    | none ↦
        let s' : State = record s { next_etag = s.next_etag + 1 } in
        let stored = stored_at s.next_etag now input in
        if retained_at (get input.key s.objects) now then (err access_denied, s') else (
          ok (meta_from_stored input.key stored),
          record s' { objects = insert input.key stored s.objects },
        )
  ]

  -- MemoryBackend::put_blob_if_not_exists
  unfoldable pub put_blob_if_not_exists : PutBlobInput → ℕ → State → StoreResult BlobMeta × State
  unfolding stored_at meta_from_stored current pin_before_overwrite
  put_blob_if_not_exists input now s = elim s.fail_next_put [
    | some e ↦ (err e, record s { fail_next_put = none })
    | none ↦
        if is_some (current s input.key)
        then (err already_exists, s)
        else let p = pin_before_overwrite input.key now s in
          let stored = stored_at s.next_etag now input in
          (
            ok (meta_from_stored input.key stored),
            record p {
              delete_markers = remove input.key p.delete_markers;
              next_etag = p.next_etag + 1;
              objects = insert input.key stored p.objects;
            },
          )
  ]

  -- MemoryBackend::copy_blob
  unfoldable pub copy_blob : CopyBlobInput → ℕ → State → StoreResult BlobMeta × State
  unfolding meta_from_stored is_retained
  copy_blob input now s = elim (get input.source_key s.objects) [
    | none ↦ (err not_found, s)
    | some src ↦
        if retained_at (get input.destination_key s.objects) now
        then (err access_denied, s)
        else let stored : StoredBlob = record {
          body = src.body;
          e_tag = etag s.next_etag src.body;
          last_modified = now;
          content_type = or_else input.replace_content_type src.content_type;
          metadata = unwrap_or input.replace_metadata src.metadata;
          object_lock = none;
        } in
          (
            ok (meta_from_stored input.destination_key stored),
            record s {
              next_etag = s.next_etag + 1;
              objects = insert input.destination_key stored s.objects;
            },
          )
  ]
