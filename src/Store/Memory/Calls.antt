-- ===== src/Store/Memory/Calls.antt =====
-- `MemoryBackend` of runtime/src/store/backend/memory.rs.
-- A run of the backend: the calls that change it, each with the time that it reads.
use enclave_runtime.Prelude.{ℕ, List, [], ◌∷◌, Bytes}
use enclave_runtime.Store.Types.{StoreError, PutBlobInput, CopyBlobInput, CompletedPart}
use enclave_runtime.Store.Memory.{
  State, set_fail_next_put, delete_blob, delete_blobs, put_blob, put_blob_if_not_exists, copy_blob,
}
use enclave_runtime.Store.Memory.Multipart.{
  multipart_begin, multipart_upload_part, multipart_upload_part_copy, multipart_complete,
  multipart_abort,
}

-- The calls that change the backend.
pub data Call : Type 0 where
  puts puts_if_not_exists : PutBlobInput → Call
  deletes : Bytes → Call
  deletes_all : List Bytes → Call
  copies : CopyBlobInput → Call
  begins : PutBlobInput → Call
  uploads : Bytes → ℕ → ℕ → Bytes → Call
  uploads_copy : Bytes → ℕ → ℕ → Bytes → ℕ → ℕ → Call
  completes : Bytes → ℕ → List CompletedPart → Call
  aborts : Bytes → ℕ → Call
  fails_next : StoreError → Call

module _ (etag : ℕ → Bytes → Bytes) where
  unfoldable pub step : ℕ × Call → State → State
  unfolding put_blob put_blob_if_not_exists delete_blob delete_blobs copy_blob multipart_begin
      multipart_upload_part multipart_upload_part_copy multipart_complete multipart_abort
      set_fail_next_put
  step (now, puts input) s = (put_blob etag input now s).1
  step (now, puts_if_not_exists input) s = (put_blob_if_not_exists etag input now s).1
  step (now, deletes key) s = delete_blob key now s
  step (now, deletes_all keys) s = delete_blobs keys now s
  step (now, copies input) s = (copy_blob etag input now s).1
  step (now, begins input) s = (multipart_begin input s).1
  step (now, uploads key id n body) s = (multipart_upload_part etag key id n body s).1
  step (now, uploads_copy key id n src start end) s =
      (multipart_upload_part_copy etag key id n src start end s).1
  step (now, completes key id parts) s = (multipart_complete etag key id parts now s).1
  step (now, aborts key id) s = (multipart_abort key id s).1
  step (now, fails_next e) s = set_fail_next_put e s

  unfoldable pub run : List (ℕ × Call) → State → State
  unfolding step
  run [] s = s
  run (c ∷ cs) s = run cs (step c s)
