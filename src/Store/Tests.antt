-- ===== src/Store/Tests.antt =====
-- The in-memory backend at concrete inputs.
use enclave_runtime.Prelude.{ℕ, ◌≡◌, refl, none, some, [], ◌∷◌, Bytes, ascii, arith, bytes_eq}
use enclave_runtime.Prelude.Map.{get}
use enclave_runtime.Prelude.Result.{ok}
use enclave_runtime.Store.Types.{ObjectLock, compliance, PutBlobInput, new_put, with_object_lock}
use enclave_runtime.Store.Memory.{
  State, StoredBlob, new, current, retained, stored_at, delete_blob, put_blob_if_not_exists,
  meta_from_stored, is_retained,
}
use enclave_runtime.Store.Memory.Calls.{puts, puts_if_not_exists, deletes, run}
use enclave_runtime.Store.Memory.Retention.{retained-run}
use enclave_runtime.Store.Memory.Lease.{put_delete_put}

-- A stand-in for the tag: the counter before the body.
abbrev toy_etag : ℕ → Bytes → Bytes
toy_etag n body = n ∷ body

abbrev hold : ObjectLock
hold = record { mode = compliance; retain_until = 100 }

abbrev sealed : PutBlobInput
sealed = record {
  key = ascii "origin/k";
  body = 1 ∷ 2 ∷ [];
  metadata = [];
  content_type = none;
  object_lock = some hold;
}

abbrev rival : PutBlobInput
rival = record {
  key = ascii "origin/k";
  body = 8 ∷ 9 ∷ [];
  metadata = [];
  content_type = none;
  object_lock = some hold;
}

abbrev version : StoredBlob
version = record {
  body = 1 ∷ 2 ∷ [];
  e_tag = 1 ∷ 1 ∷ 2 ∷ [];
  last_modified = 10;
  content_type = none;
  metadata = [];
  object_lock = some hold;
}

-- The backend after the first PUT of the sealed key.
abbrev holding : State
holding = record new { objects = (ascii "origin/k", version) ∷ []; next_etag = 2 }

new_put_lock : with_object_lock (new_put (ascii "k") []) hold ≡ record {
  key = ascii "k";
  body = [];
  metadata = [];
  content_type = none;
  object_lock = some hold;
}
unfolding with_object_lock new_put
new_put_lock = refl

holding-retained : retained holding (ascii "origin/k") ≡ some version
unfolding retained get
holding-retained = refl

retained-run_example :
    retained
      (run toy_etag
        ((20, deletes (ascii "origin/k"))
          ∷ (30, puts_if_not_exists rival)
          ∷ (40, puts rival)
          ∷ (50, deletes (ascii "origin/k"))
          ∷ [])
        holding)
      (ascii "origin/k")
    ≡ some version
unfolding is_retained
retained-run_example =
    retained-run toy_etag (ascii "origin/k") version
      ((20, deletes (ascii "origin/k"))
        ∷ (30, puts_if_not_exists rival)
        ∷ (40, puts rival)
        ∷ (50, deletes (ascii "origin/k"))
        ∷ [])
      holding holding-retained (refl, (refl, (refl, (refl, tt))))

new-current : current new (ascii "origin/k") ≡ none
unfolding current get
new-current = refl

new-retained : retained new (ascii "origin/k") ≡ none
unfolding retained get
new-retained = refl

put_delete_put_example :
    let s₂ = delete_blob (ascii "origin/k") 20 (put_blob_if_not_exists toy_etag sealed 10 new).1 in
    let r = put_blob_if_not_exists toy_etag rival 30 s₂ in
    (r.0 ≡ ok (meta_from_stored (ascii "origin/k") (stored_at toy_etag s₂.next_etag 30 rival)))
    × (current r.1 (ascii "origin/k") ≡ some (stored_at toy_etag s₂.next_etag 30 rival))
    × (retained r.1 (ascii "origin/k") ≡ some (stored_at toy_etag 1 10 sealed))
put_delete_put_example =
    put_delete_put toy_etag sealed rival hold 10 20 30 new refl (omega arith) (omega arith) refl
      new-current new-retained

-- A key whose delete marker outlived the retention of its object.
abbrev stale : State
stale = record holding { delete_markers = (ascii "origin/k", tt) ∷ [] }
