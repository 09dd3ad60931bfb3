-- ===== src/Zfs/Admit/Descends.antt =====
-- `admit` of runtime/src/zfs.rs: which pool states it lets a boot go on from.
use enclave_runtime.Prelude.{
  ℕ, ◌+◌, ◌≤◌, ◌≡◌, refl, ap, ◌∙◌, ◌⊎◌, inl, inr, Bool, true, false, not, ◌||◌, Option, some, [],
  ◌∷◌, ◌++◌, Bytes, arith, ltb, length, bytes_eq, bytes_beq_eq, nat_eq, ◌==◌, ==_iff, Bool-cases,
}
use enclave_runtime.Prelude.Map.{beq_self}
use enclave_runtime.Prelude.Result.{ok, ensure, ok_or-then, ensure-then, ensure-ok}
use enclave_runtime.Prelude.Text.{
  split, to_string, split_alone, split_front, to_string-Without, Without,
}
use enclave_runtime.Zfs.Types.{Host, KeyMaterial}
use enclave_runtime.Zfs.Anchor.{Anchor, hash, seal, PoolKind, next_seq, prev_hash}
use enclave_runtime.Zfs.Admit.{dash, marker, property, names_successor, vouched, admit}

-- What an admitted state shows: it is the anchored pool, the loaded txg is no older than the anchor's,
-- and its marker is the anchor's own or, in three pieces, that of the successor's number under the
-- anchor's hash.
module _ (h : Host) where
  pub admit_sound :
      (tip : Anchor) (loaded_txg : Option ℕ) (held : Bytes) (guid : ℕ)
      → admit h tip loaded_txg held guid ≡ ok tt
      → (guid ≡ tip.pool_guid)
        × ((t : ℕ) × (loaded_txg ≡ some t) × (tip.txg ≤ t))
        × ((held ≡ property h tip) ⊎ (names_successor h tip (split dash held) ≡ true))
  unfolding admit
  admit_sound tip loaded_txg held guid e =
      let (t, is_loaded, e) = ok_or-then loaded_txg _ _ e in
      let (same, e) = ensure-then (guid == tip.pool_guid) _ _ e in
      let (recent, e) = ensure-then (not (ltb t tip.txg)) _ _ e in
      let marked = ensure-ok (vouched h tip held) _ e in
      ((==_iff guid tip.pool_guid).0 same, (t, is_loaded, ground (arith, recent)), by_marker marked)
    where
      by_marker :
          vouched h tip held ≡ true
          → (held ≡ property h tip) ⊎ (names_successor h tip (split dash held) ≡ true)
      by_marker m = elim (Bool-cases (held == property h tip)) [
        | inl t ↦ inl (bytes_beq_eq held (property h tip) t)
        | inr f ↦ inr (rw f at m)
      ]

  successor_split :
      (tip : Anchor) (nonce : Bytes)
      → ((b : Bytes) → Without dash (h.hex b))
      → split dash (marker h (tip.seq + 1) nonce (hash h tip))
        ≡ to_string (tip.seq + 1) ∷ h.hex nonce ∷ h.hex (hash h tip) ∷ []
  unfolding marker
  successor_split tip nonce plain =
      let prev = h.hex (hash h tip) in
      split_front dash (to_string (tip.seq + 1)) (h.hex nonce ++ (dash ∷ prev))
        (to_string-Without dash (tip.seq + 1) (omega arith))
      ∙ ap (λ r. to_string (tip.seq + 1) ∷ r) (split_front dash (h.hex nonce) prev (plain nonce))
      ∙ ap (λ r. to_string (tip.seq + 1) ∷ h.hex nonce ∷ r) (split_alone dash prev (plain _))

  names_successor-marker :
      (tip : Anchor) (nonce : Bytes)
      → ((b : Bytes) → Without dash (h.hex b))
      → length (h.hex nonce) ≡ 64
      → names_successor h tip (split dash (marker h (tip.seq + 1) nonce (hash h tip))) ≡ true
  unfolding names_successor
  names_successor-marker tip nonce plain long =
      rw
        (
          successor_split tip nonce plain,
          beq_self (to_string (tip.seq + 1)),
          long,
          beq_self (h.hex (hash h tip)),
        )
        refl

  vouched-admit :
      (tip : Anchor) (t : ℕ) (held : Bytes)
      → tip.txg ≤ t
      → vouched h tip held ≡ true
      → admit h tip (some t) held tip.pool_guid ≡ ok tt
  unfolding admit
  vouched-admit tip t held le v =
      let recent : ltb t tip.txg ≡ false = ground (arith, le) in
      rw (beq_self tip.pool_guid, recent, v, ensure) refl

  -- A boot goes on from any state of the anchored pool that is no older than the anchor, when its
  -- marker is the anchor's, and also when it is the marker of the next anchor, sealed onto this one
  -- and never published. Hex text has no dash, and that of a nonce has 64 characters.
  pub admit-crash :
      (keys : KeyMaterial) (tip : Anchor) (kind : PoolKind) (pool_id tenant_id : Bytes)
      (guid txg : ℕ) (nonce : Bytes) (t : ℕ)
      → tip.txg ≤ t
      → ((b : Bytes) → Without dash (h.hex b))
      → length (h.hex nonce) ≡ 64
      → (let next = seal h keys (some tip) kind pool_id tenant_id guid txg nonce in
          (admit h tip (some t) (property h tip) tip.pool_guid ≡ ok tt)
          × (admit h tip (some t) (property h next) tip.pool_guid ≡ ok tt))
  unfolding property seal next_seq prev_hash
  admit-crash keys tip kind pool_id tenant_id guid txg nonce t le plain long =
      let held = marker h (tip.seq + 1) nonce (hash h tip) in
      (
        vouched-admit tip t (property h tip) le (rw (beq_self (property h tip)) refl),
        vouched-admit tip t held le
            (rw (names_successor-marker tip nonce plain long) (or_true (held == property h tip))),
      )
    where
      or_true : (b : Bool) → (b || true) ≡ true
      or_true true = refl
      or_true false = refl
