-- ===== src/Store/Memory/Lease.antt =====
-- `MemoryBackend` of runtime/src/store/backend/memory.rs.
-- What a conditional PUT promises, and what a delete marker takes from it.
use enclave_runtime.Prelude.{
  ℕ, ◌+◌, ◌<◌, ◌≡◌, refl, sym, ap, ◌∙◌, true, false, Option, none, some, Bytes, arith, lt→ltb,
  bytes_eq,
}
use enclave_runtime.Prelude.Map.{get, insert, remove, get-insert_self, get-remove_self}
use enclave_runtime.Prelude.Result.{ok, err}
use enclave_runtime.Store.Types.{already_exists, ObjectLock, PutBlobInput}
use enclave_runtime.Store.Memory.{
  State, StoredBlob, retained_at, is_retained, or_else, retained, current, pin_before_overwrite,
  delete_blob, put_blob, put_blob_if_not_exists, stored_at, meta_from_stored,
}

module _ (etag : ℕ → Bytes → Bytes) where
  -- The state that a conditional PUT leaves when it succeeds.
  created : PutBlobInput → ℕ → State → State
  created input now s =
      let p = pin_before_overwrite input.key now s in
      record p {
        delete_markers = remove input.key p.delete_markers;
        next_etag = p.next_etag + 1;
        objects = insert input.key (stored_at etag s.next_etag now input) p.objects;
      }

  put-created :
      (input : PutBlobInput) (now : ℕ) (s : State)
      → s.fail_next_put ≡ none
      → current s input.key ≡ none
      → put_blob_if_not_exists etag input now s ≡ (
        ok (meta_from_stored input.key (stored_at etag s.next_etag now input)),
        created input now s,
      )
  unfolding put_blob_if_not_exists created
  put-created input now s f c = ground arith

  current-created :
      (input : PutBlobInput) (now : ℕ) (s : State)
      → current (created input now s) input.key ≡ some (stored_at etag s.next_etag now input)
  unfolding current created
  current-created input now s = ground (
    arith,
    get-remove_self input.key (pin_before_overwrite input.key now s).delete_markers,
    get-insert_self input.key (stored_at etag s.next_etag now input)
        (pin_before_overwrite input.key now s).objects,
  )

  fail-created :
      (input : PutBlobInput) (now : ℕ) (s : State)
      → (created input now s).fail_next_put ≡ s.fail_next_put
  unfolding created pin_before_overwrite
  fail-created input now s = ground arith

  put-exists :
      (input : PutBlobInput) (now : ℕ) (s : State) {v : StoredBlob}
      → s.fail_next_put ≡ none
      → current s input.key ≡ some v
      → put_blob_if_not_exists etag input now s ≡ (err already_exists, s)
  unfolding put_blob_if_not_exists
  put-exists input now s f c = ground arith

  -- Where no failure is injected, a conditional PUT under a key that shows no object succeeds, and is what an ordinary read of the
  -- key sees from then on; a second one under the same key is refused and changes nothing.
  pub put_if_not_exists_twice :
      (a b : PutBlobInput) (now later : ℕ) (s : State)
      → a.key ≡ b.key
      → s.fail_next_put ≡ none
      → current s a.key ≡ none
      → let r = put_blob_if_not_exists etag a now s in
        (current r.1 a.key ≡ some (stored_at etag s.next_etag now a))
        × (put_blob_if_not_exists etag b later r.1 ≡ (err already_exists, r.1))
  put_if_not_exists_twice a b now later s same f c = rw (put-created a now s f c) (
      (
        current-created a now s,
        put-exists b later (created a now s) (fail-created a now s ∙ f)
            (ap (current (created a now s)) (sym same) ∙ current-created a now s),
      ))

  -- A key that was never written, and what a PUT, a delete and a PUT make of it.
  created_pinned :
      (input : PutBlobInput) (now : ℕ) (s : State)
      → retained s input.key ≡ none
      → get input.key (created input now s).pinned ≡ none
  unfolding created pin_before_overwrite retained
  created_pinned input now s n = ground arith

  -- The state after the delete, which only marks the key.
  marked : PutBlobInput → ℕ → State → State
  marked a t₁ s = record (created a t₁ s) {
    delete_markers = insert a.key tt (created a t₁ s).delete_markers;
  }

  get-created :
      (a : PutBlobInput) (t₁ : ℕ) (s : State)
      → get a.key (created a t₁ s).objects ≡ some (stored_at etag s.next_etag t₁ a)
  unfolding created
  get-created a t₁ s = get-insert_self a.key _ _

  stored-is_retained :
      (a : PutBlobInput) (l : ObjectLock) (n t₁ t : ℕ)
      → a.object_lock ≡ some l
      → t < l.retain_until
      → is_retained (stored_at etag n t₁ a) t ≡ true
  unfolding is_retained stored_at
  stored-is_retained a l n t₁ t lock h = rw (lock) (lt→ltb t l.retain_until h)

  delete-marked :
      (a : PutBlobInput) (l : ObjectLock) (t₁ t₂ : ℕ) (s : State)
      → a.object_lock ≡ some l
      → t₂ < l.retain_until
      → delete_blob a.key t₂ (created a t₁ s) ≡ marked a t₁ s
  unfolding delete_blob marked
  delete-marked a l t₁ t₂ s lock h₂ =
      ground (arith, get-created a t₁ s, stored-is_retained a l s.next_etag t₁ t₂ lock h₂)

  current-marked : (a : PutBlobInput) (t₁ : ℕ) (s : State) → current (marked a t₁ s) a.key ≡ none
  unfolding current marked
  current-marked a t₁ s = ground (arith, get-insert_self a.key tt (created a t₁ s).delete_markers)

  pinned-created :
      (a b : PutBlobInput) (l : ObjectLock) (t₁ t₃ : ℕ) (s : State)
      → a.object_lock ≡ some l
      → t₃ < l.retain_until
      → retained s a.key ≡ none
      → get a.key (created (record b { key = a.key }) t₃ (marked a t₁ s)).pinned
        ≡ some (stored_at etag s.next_etag t₁ a)
  unfolding created pin_before_overwrite marked
  pinned-created a b l t₁ t₃ s lock h₃ n =
      let q = created_pinned a t₁ s n in
      let g = get-created a t₁ s in
      let i = stored-is_retained a l s.next_etag t₁ t₃ lock h₃ in
      ground
        (arith, get-insert_self a.key (stored_at etag s.next_etag t₁ a) (created a t₁ s).pinned)

  retained-created :
      (a b : PutBlobInput) (l : ObjectLock) (t₁ t₃ : ℕ) (s : State)
      → a.object_lock ≡ some l
      → t₃ < l.retain_until
      → retained s a.key ≡ none
      → retained (created (record b { key = a.key }) t₃ (marked a t₁ s)) a.key
        ≡ some (stored_at etag s.next_etag t₁ a)
  unfolding retained
  retained-created a b l t₁ t₃ s lock h₃ n =
      ap
        (λ (o : Option StoredBlob).
          or_else o (get a.key (created (record b { key = a.key }) t₃ (marked a t₁ s)).objects))
        (pinned-created a b l t₁ t₃ s lock h₃ n)

  fail-marked :
      (a : PutBlobInput) (t₁ : ℕ) (s : State)
      → s.fail_next_put ≡ none
      → (marked a t₁ s).fail_next_put ≡ none
  unfolding marked
  fail-marked a t₁ s f = fail-created a t₁ s ∙ f

  -- A delete marker breaks the lease: where nothing was ever written and no failure is injected, after a conditional PUT under
  -- retention a plain delete lets a second conditional PUT of the same key succeed as if it were the
  -- first, though the retained version that is read past the marker is still the first one.
  pub put_delete_put :
      (a b : PutBlobInput) (l : ObjectLock) (t₁ t₂ t₃ : ℕ) (s : State)
      → a.object_lock ≡ some l
      → t₂ < l.retain_until
      → t₃ < l.retain_until
      → s.fail_next_put ≡ none
      → current s a.key ≡ none
      → retained s a.key ≡ none
      → let b' : PutBlobInput = record b { key = a.key } in
        let s₂ = delete_blob a.key t₂ (put_blob_if_not_exists etag a t₁ s).1 in
        let r = put_blob_if_not_exists etag b' t₃ s₂ in
        (r.0 ≡ ok (meta_from_stored a.key (stored_at etag s₂.next_etag t₃ b')))
        × (current r.1 a.key ≡ some (stored_at etag s₂.next_etag t₃ b'))
        × (retained r.1 a.key ≡ some (stored_at etag s.next_etag t₁ a))
  put_delete_put a b l t₁ t₂ t₃ s lock h₂ h₃ f c n =
      let b' : PutBlobInput = record b { key = a.key } in
      rw
        (
          put-created a t₁ s f c,
          delete-marked a l t₁ t₂ s lock h₂,
          put-created b' t₃ (marked a t₁ s) (fail-marked a t₁ s f) (current-marked a t₁ s),
        )
        ((refl, current-created b' t₃ (marked a t₁ s), retained-created a b l t₁ t₃ s lock h₃ n))

  -- Where no failure is injected, an unconditional PUT over a delete marker whose object is no longer retained reports success, and
  -- the new object stays hidden: the marker is not taken away.
  pub put_blob_hidden :
      (input : PutBlobInput) (now : ℕ) (s : State)
      → s.fail_next_put ≡ none
      → get input.key s.delete_markers ≡ some tt
      → retained_at (get input.key s.objects) now ≡ false
      → let r = put_blob etag input now s in
        (r.0 ≡ ok (meta_from_stored input.key (stored_at etag s.next_etag now input)))
        × (get input.key r.1.objects ≡ some (stored_at etag s.next_etag now input))
        × (current r.1 input.key ≡ none)
  unfolding put_blob current
  put_blob_hidden input now s f m r =
      ground (arith, get-insert_self input.key (stored_at etag s.next_etag now input) s.objects)
