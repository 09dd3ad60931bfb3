-- ===== src/Store/Memory/Retention.antt =====
-- `MemoryBackend` of runtime/src/store/backend/memory.rs.
-- Object Lock over the whole backend: no sequence of calls hides a retained version from
-- `get_retained_blob` before its time.
use enclave_runtime.Prelude.{
  ℕ, ◌≡◌, true, some, List, [], ◌∷◌, Bytes, arith, bytes_eq, nat_eq, inl, inr, Option-cases,
}
use enclave_runtime.Prelude.Map.{get}
use enclave_runtime.Store.Memory.{State, StoredBlob, is_retained, retained}
use enclave_runtime.Store.Memory.Multipart.{
  multipart_upload_part, multipart_upload_part_copy, multipart_abort,
}
use enclave_runtime.Store.Memory.Calls.{
  Call, step, run, puts, puts_if_not_exists, deletes, deletes_all, copies, begins, uploads,
  uploads_copy, completes, aborts, fails_next,
}
use enclave_runtime.Store.Memory.Holds.{
  Holds, delete_one-Holds, delete_blobs-Holds, put_blob-Holds, put_blob_if_not_exists-Holds,
  copy_blob-Holds, multipart_complete-Holds, same-Holds,
}

module _ (etag : ℕ → Bytes → Bytes) where
  upload-same :
      (k : Bytes) (id n : ℕ) (body : Bytes) (s : State)
      → let s' = (multipart_upload_part etag k id n body s).1 in
        (s'.pinned ≡ s.pinned) × (s'.objects ≡ s.objects)
  unfolding multipart_upload_part
  upload-same k id n body s = ground arith

  upload_copy-same :
      (k : Bytes) (id n : ℕ) (src : Bytes) (start end : ℕ) (s : State)
      → let s' = (multipart_upload_part_copy etag k id n src start end s).1 in
        (s'.pinned ≡ s.pinned) × (s'.objects ≡ s.objects)
  unfolding multipart_upload_part_copy
  upload_copy-same k id n src start end s = ground arith

  abort-same :
      (k : Bytes) (id : ℕ) (s : State)
      → let s' = (multipart_abort k id s).1 in (s'.pinned ≡ s.pinned) × (s'.objects ≡ s.objects)
  unfolding multipart_abort
  abort-same k id s = ground arith

  module _ (key : Bytes) (b : StoredBlob) where
    step-Holds :
        (now : ℕ) (c : Call) (s : State)
        → is_retained b now ≡ true
        → Holds key b s
        → Holds key b (step etag (now, c) s)
    unfolding step
    step-Holds now (puts input) s r h = put_blob-Holds key b now r etag input s h
    step-Holds now (puts_if_not_exists input) s r h =
        put_blob_if_not_exists-Holds key b now r etag input s h
    step-Holds now (deletes k) s r h = delete_one-Holds key b now r k s h
    step-Holds now (deletes_all ks) s r h = delete_blobs-Holds key b now r ks s h
    step-Holds now (copies input) s r h = copy_blob-Holds key b now r etag input s h
    step-Holds now (begins input) s r h = h
    step-Holds now (uploads k id n body) s r h =
        let e = upload-same k id n body s in same-Holds key b now r s e.0 e.1 h
    step-Holds now (uploads_copy k id n src start end) s r h =
        let e = upload_copy-same k id n src start end s in same-Holds key b now r s e.0 e.1 h
    step-Holds now (completes k id parts) s r h =
        multipart_complete-Holds key b now r etag k id parts s h
    step-Holds now (aborts k id) s r h =
        let e = abort-same k id s in same-Holds key b now r s e.0 e.1 h
    step-Holds now (fails_next e) s r h = h

    retained-Holds : (s : State) → retained s key ≡ some b → Holds key b s
    unfolding retained
    retained-Holds s h = elim (Option-cases (get key s.pinned)) [
      | inl p ↦ inr (p, ground arith)
      | inr (v, p) ↦ inl (ground arith)
    ]

    Holds-retained : (s : State) → Holds key b s → retained s key ≡ some b
    unfolding retained
    Holds-retained s (inl h) = ground arith
    Holds-retained s (inr h) = ground arith

    -- Every call of the run comes while the version is retained.
    abbrev pub Within : List (ℕ × Call) → Type 0
    Within [] = Unit
    Within ((now, c) ∷ cs) = (is_retained b now ≡ true) × Within cs

    run-Holds :
        (cs : List (ℕ × Call)) (s : State) → Within cs → Holds key b s → Holds key b (run etag cs s)
    unfolding run
    run-Holds [] s w h = h
    run-Holds ((now, c) ∷ cs) s w h =
        run-Holds cs (step etag (now, c) s) w.1 (step-Holds now c s w.0 h)

    -- Once `get_retained_blob` reads this version of `key`, it reads the same version after any calls
    -- of the backend that come before the end of its retention: puts, conditional puts, deletes,
    -- copies, multipart uploads and failures that are injected.
    pub retained-run :
        (cs : List (ℕ × Call)) (s : State)
        → retained s key ≡ some b
        → Within cs
        → retained (run etag cs s) key ≡ some b
    retained-run cs s h w = Holds-retained (run etag cs s) (run-Holds cs s w (retained-Holds s h))
