-- ===== src/Store/Memory/Holds.antt =====
-- `MemoryBackend` of runtime/src/store/backend/memory.rs.
-- Object Lock, one operation of the backend at a time: what is kept for a key stays kept.
use enclave_runtime.Prelude.{
  ℕ, ◌≡◌, ap, ◌∙◌, true, false, none, some, List, [], ◌∷◌, Bytes, arith, bytes_eq, nat_eq, ◌==◌,
  bytes_beq, bytes_beq_iff, ◌⊎◌, inl, inr, Option-cases, Bool-cases,
}
use enclave_runtime.Prelude.Map.{Map, get, insert, remove, get-insert, get-remove, beq_self}
use enclave_runtime.Prelude.Result.{ok, err}
use enclave_runtime.Store.Types.{StoreResult, PutBlobInput, CopyBlobInput, CompletedPart}
use enclave_runtime.Store.Memory.{
  State, StoredBlob, ActiveMpu, retained_at, is_retained, is_some, current, pin_before_overwrite,
  delete_one, delete_blobs, put_blob, put_blob_if_not_exists, copy_blob, stored_at,
}
use enclave_runtime.Store.Memory.Multipart.{
  multipart_complete, store_assembled, assemble, sort_parts,
}

-- The version that is pinned under `key`, or that would be pinned before it is written over.
abbrev pub HoldsIn : Bytes → StoredBlob → Map Bytes StoredBlob → Map Bytes StoredBlob → Type 0
HoldsIn key b pinned objects =
    (get key pinned ≡ some b) ⊎ ((get key pinned ≡ none) × (get key objects ≡ some b))

abbrev pub Holds : Bytes → StoredBlob → State → Type 0
Holds key b s = HoldsIn key b s.pinned s.objects

module _ (key : Bytes) (b : StoredBlob) (now : ℕ) (kept : is_retained b now ≡ true) where
  pub delete_one-Holds : (k : Bytes) (s : State) → Holds key b s → Holds key b (delete_one k now s)
  unfolding delete_one
  delete_one-Holds k s (inl p) = inl (ground arith)
  delete_one-Holds k s (inr (p, o)) = inr (
    ground arith,
    ground (
      arith,
      get-remove k key s.objects,
      bytes_beq_iff k key,
      λ (q : k ≡ key). ap (λ (j : Bytes). get j s.objects) q,
    ),
  )

  pub delete_blobs-Holds :
      (ks : List Bytes) (s : State) → Holds key b s → Holds key b (delete_blobs ks now s)
  unfolding delete_blobs
  delete_blobs-Holds [] s h = h
  delete_blobs-Holds (k ∷ ks) s h = delete_blobs-Holds ks _ (delete_one-Holds k s h)

  -- A write under `k` that is refused where the object there is retained.
  insert-Holds :
      (k : Bytes) (v : StoredBlob) (s : State)
      → retained_at (get k s.objects) now ≡ false
      → Holds key b s
      → HoldsIn key b s.pinned (insert k v s.objects)
  insert-Holds k v s free (inl h) = inl h
  insert-Holds k v s free (inr (h, h')) = inr (
    h,
    ground (
      arith,
      get-insert k key v s.objects,
      bytes_beq_iff k key,
      λ (q : k ≡ key). ap (λ (j : Bytes). get j s.objects) q,
    ),
  )

  pinned_same :
      (s : State) → Holds key b s → get key (pin_before_overwrite key now s).pinned ≡ some b
  unfolding pin_before_overwrite
  pinned_same s (inl h) = ground arith
  pinned_same s (inr (h, h')) = ground (arith, get-insert key key b s.pinned, beq_self key)

  pinned_other :
      (k : Bytes) (s : State)
      → bytes_beq k key ≡ false
      → get key (pin_before_overwrite k now s).pinned ≡ get key s.pinned
  unfolding pin_before_overwrite
  pinned_other k s ne = elim (Option-cases (get k s.objects)) [
    | inl e ↦ rw (e, pin_before_overwrite) (ground arith)
    | inr (v, e) ↦ rw (e, pin_before_overwrite) (ground (arith, get-insert k key v s.pinned))
  ]

  pin-Holds :
      (k : Bytes) (v : StoredBlob) (s : State)
      → Holds key b s
      → HoldsIn key b (pin_before_overwrite k now s).pinned (insert k v s.objects)
  pin-Holds k v s h = elim (Bool-cases (bytes_beq k key)) [
    | inl e ↦ let q = (bytes_beq_iff k key).0 e in inl (rw q (pinned_same s h))
    | inr ne ↦ elim h [
      | inl h₁ ↦ inl (rw (pinned_other k s ne) h₁)
      | inr (h₁, h₂) ↦ inr (rw (pinned_other k s ne) h₁, rw (get-insert k key v s.objects, ne) h₂)
    ]
  ]

  objects-pin : (k : Bytes) (s : State) → (pin_before_overwrite k now s).objects ≡ s.objects
  unfolding pin_before_overwrite
  objects-pin k s = ground arith

  module _ (etag : ℕ → Bytes → Bytes) where
    pub put_blob-Holds :
        (input : PutBlobInput) (s : State)
        → Holds key b s
        → Holds key b (put_blob etag input now s).1
    unfolding put_blob
    put_blob-Holds input s h = elim (Option-cases s.fail_next_put) [
      | inr (e, f) ↦ rw (f, put_blob) h
      | inl f ↦ elim (Bool-cases (retained_at (get input.key s.objects) now)) [
        | inl r ↦ rw (f, put_blob, r) h
        | inr r ↦
            rw (f, put_blob, r)
              (insert-Holds input.key (stored_at etag s.next_etag now input) s r h)
      ]
    ]

    pub put_blob_if_not_exists-Holds :
        (input : PutBlobInput) (s : State)
        → Holds key b s
        → Holds key b (put_blob_if_not_exists etag input now s).1
    unfolding put_blob_if_not_exists
    put_blob_if_not_exists-Holds input s h = elim (Option-cases s.fail_next_put) [
      | inr (e, f) ↦ rw (f, put_blob_if_not_exists) h
      | inl f ↦ elim (Bool-cases (is_some (current s input.key))) [
        | inl r ↦ rw (f, put_blob_if_not_exists, r) h
        | inr r ↦
            rw (f, put_blob_if_not_exists, r, objects-pin input.key s)
              (pin-Holds input.key (stored_at etag s.next_etag now input) s h)
      ]
    ]

    pub copy_blob-Holds :
        (input : CopyBlobInput) (s : State)
        → Holds key b s
        → Holds key b (copy_blob etag input now s).1
    unfolding copy_blob
    copy_blob-Holds input s h = elim (Option-cases (get input.source_key s.objects)) [
      | inl f ↦ rw (f, copy_blob) h
      | inr (src, f) ↦ elim (Bool-cases (retained_at (get input.destination_key s.objects) now)) [
        | inl r ↦ rw (f, copy_blob, r) h
        | inr r ↦ rw (f, copy_blob, r) (insert-Holds input.destination_key _ s r h)
      ]
    ]

    store_assembled-Holds :
        (k : Bytes) (mpu : ActiveMpu) (r : StoreResult Bytes) (s : State)
        → Holds key b s
        → Holds key b (store_assembled etag k mpu now r s).1
    unfolding store_assembled
    store_assembled-Holds k mpu (err e) s h = h
    store_assembled-Holds k mpu (ok body) s h =
        elim (Bool-cases (retained_at (get k s.objects) now)) [
          | inl r ↦ rw (r, store_assembled) h
          | inr r ↦ rw (r, store_assembled) (insert-Holds k _ s r h)
        ]

    pub multipart_complete-Holds :
        (k : Bytes) (id : ℕ) (parts : List CompletedPart) (s : State)
        → Holds key b s
        → Holds key b (multipart_complete etag k id parts now s).1
    unfolding multipart_complete
    multipart_complete-Holds k id parts s h = elim (Option-cases (get id s.mpus)) [
      | inl f ↦ rw (f, multipart_complete) h
      | inr (mpu, f) ↦ elim (Bool-cases (mpu.key == k)) [
        | inl r ↦
            rw (f, multipart_complete, r)
              (store_assembled-Holds k mpu (assemble mpu.parts (sort_parts parts))
                (record s { mpus = remove id s.mpus }) h)
        | inr r ↦ rw (f, multipart_complete, r) h
      ]
    ]

  -- A call that leaves pinned versions and objects alone.
  pub same-Holds :
      {pinned objects : Map Bytes StoredBlob} (s : State)
      → pinned ≡ s.pinned
      → objects ≡ s.objects
      → Holds key b s
      → HoldsIn key b pinned objects
  same-Holds s p o (inl h) = inl (ap (get key) p ∙ h)
  same-Holds s p o (inr (h, h')) = inr (ap (get key) p ∙ h, ap (get key) o ∙ h')
