-- ===== src/Store/Memory/Multipart.antt =====
-- The multipart uploads of runtime/src/store/backend/memory.rs.
use enclave_runtime.Prelude.{
  ℕ, ◌+◌, ◌-◌, Bool, ◌||◌, none, some, List, [], ◌∷◌, ◌++◌, Bytes, ltb, leb, length, take, drop,
  if◌then◌else◌, bytes_eq, nat_eq, ◌==◌, not,
}
use enclave_runtime.Prelude.Map.{Map, get, insert, remove}
use enclave_runtime.Prelude.Result.{ok, err}
use enclave_runtime.Store.Types.{
  StoreResult, not_found, access_denied, invalid, io, BlobMeta, PutBlobInput, CompletedPart,
}
use enclave_runtime.Store.Memory.{
  State, StoredBlob, ActiveMpu, MpuPart, retained_at, is_retained, meta_from_stored,
}

-- MemoryBackend::multipart_begin
unfoldable pub multipart_begin : PutBlobInput → State → ℕ × State
multipart_begin input s = (
  s.next_mpu_id,
  record s {
    next_mpu_id = s.next_mpu_id + 1;
    mpus =
        insert s.next_mpu_id
          (record {
            key = input.key;
            metadata = input.metadata;
            content_type = input.content_type;
            object_lock = input.object_lock;
            parts = [];
          })
          s.mpus;
  },
)

abbrev pub bad_part_number : ℕ → Bool
bad_part_number n = n == 0 || ltb 10000 n

-- The part that both uploads add to an upload in flight; `s` has drawn the tag already.
unfoldable pub add_part : Bytes → ℕ → ℕ → MpuPart → State → StoreResult Bytes × State
add_part key id n part s = elim (get id s.mpus) [
  | none ↦ (err (io []), s)
  | some mpu ↦ if not (mpu.key == key) then (err (invalid []), s) else (
    ok part.e_tag,
    record s { mpus = insert id (record mpu { parts = insert n part mpu.parts }) s.mpus },
  )
]

-- CompletedParts in ascending order of their numbers, equal ones in the order given.
unfoldable pub insert_part : CompletedPart → List CompletedPart → List CompletedPart
insert_part p [] = p ∷ []
insert_part p (q ∷ ps) =
    if leb p.part_number q.part_number then p ∷ q ∷ ps else q ∷ insert_part p ps

unfoldable pub sort_parts : List CompletedPart → List CompletedPart
unfolding insert_part
sort_parts [] = []
sort_parts (p ∷ ps) = insert_part p (sort_parts ps)

abbrev pub append_body : Bytes → StoreResult Bytes → StoreResult Bytes
append_body body (ok rest) = ok (body ++ rest)
append_body body (err e) = err e

-- The loop of `multipart_complete` over the ordered parts.
unfoldable pub assemble : Map ℕ MpuPart → List CompletedPart → StoreResult Bytes
assemble parts [] = ok []
assemble parts (cp ∷ cps) =
    let rest = assemble parts cps in
    elim (get cp.part_number parts) [
      | none ↦ err (invalid [])
      | some part ↦
          if not (part.e_tag == cp.e_tag) then err (invalid []) else append_body part.body rest
    ]

-- MemoryBackend::multipart_abort
unfoldable pub multipart_abort : Bytes → ℕ → State → StoreResult (Unit {0}) × State
multipart_abort key id s = elim (get id s.mpus) [
  | none ↦ (ok tt, s)
  | some mpu ↦
      if not (mpu.key == key)
      then (err (invalid []), s)
      else (ok tt, record s { mpus = remove id s.mpus })
]

module _ (etag : ℕ → Bytes → Bytes) where
  -- MemoryBackend::multipart_upload_part
  unfoldable pub multipart_upload_part : Bytes → ℕ → ℕ → Bytes → State → StoreResult Bytes × State
  unfolding add_part
  multipart_upload_part key id n body s =
      if bad_part_number n
      then (err (invalid []), s)
      else add_part key id n (record { body = body; e_tag = etag s.next_etag body })
          (record s { next_etag = s.next_etag + 1 })

  -- MemoryBackend::multipart_upload_part_copy, for the bytes from `start` up to `end`.
  unfoldable pub multipart_upload_part_copy :
      Bytes → ℕ → ℕ → Bytes → ℕ → ℕ → State → StoreResult Bytes × State
  unfolding add_part
  multipart_upload_part_copy key id n source_key start end s =
      if bad_part_number n then (err (invalid []), s) else elim (get source_key s.objects) [
        | none ↦ (err not_found, s)
        | some src ↦
            if ltb (length src.body) end || ltb end start
            then (err (invalid []), s)
            else let body = take (end - start) (drop start src.body) in
              add_part key id n (record { body = body; e_tag = etag s.next_etag body })
                (record s { next_etag = s.next_etag + 1 })
      ]

  -- The end of `multipart_complete`: `s` has the upload taken out.
  unfoldable pub store_assembled :
      Bytes → ActiveMpu → ℕ → StoreResult Bytes → State → StoreResult BlobMeta × State
  unfolding is_retained meta_from_stored
  store_assembled key mpu now (err e) s = (err e, s)
  store_assembled key mpu now (ok body) s =
      let s' : State = record s { next_etag = s.next_etag + 1 } in
      if retained_at (get key s.objects) now
      then (err access_denied, s')
      else let stored : StoredBlob = record {
        body = body;
        e_tag = etag s.next_etag body;
        last_modified = now;
        content_type = mpu.content_type;
        metadata = mpu.metadata;
        object_lock = mpu.object_lock;
      } in
        (ok (meta_from_stored key stored), record s' { objects = insert key stored s.objects })

  -- MemoryBackend::multipart_complete
  unfoldable pub multipart_complete :
      Bytes → ℕ → List CompletedPart → ℕ → State → StoreResult BlobMeta × State
  unfolding store_assembled assemble sort_parts
  multipart_complete key id parts now s = elim (get id s.mpus) [
    | none ↦ (err (io []), s)
    | some mpu ↦
        if not (mpu.key == key)
        then (err (invalid []), record s { mpus = insert id mpu (remove id s.mpus) })
        else store_assembled key mpu now (assemble mpu.parts (sort_parts parts))
            (record s { mpus = remove id s.mpus })
  ]
