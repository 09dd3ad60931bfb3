-- ===== src/Zfs/Pool/Open/Resumed.antt =====
-- `Pool::open` of runtime/src/zfs.rs: what a pool that it opens is known to be.
use mathlib.Core.Path.{subst}
use enclave_runtime.Prelude.{◌-◌, sym, ◌⊎◌, Bool-cases, ltb, nat_eq}
use enclave_runtime.Prelude.{
  ℕ, ◌≤◌, ◌≡◌, refl, ap, ◌∙◌, inl, inr, Option, none, some, Bytes, arith, leb, leb→le, bytes_eq,
  bytes_beq_eq, ◌==◌,
}
use enclave_runtime.Prelude.Result.{ok, ensure, ensure-ok, ok_injective, Result-cases}
use enclave_runtime.Prelude.Exec.{>>=-eq-ok, pure, lift, lift_option, ◌>>=◌, ◌>>◌}
use enclave_runtime.Zfs.Types.{Host, Run, ZfsError, no_anchors, broken_chain}
use enclave_runtime.Zfs.Anchor.{Anchor, hash, decode_and_verify}
use enclave_runtime.Zfs.Anchor.RoundTrip.{decode_and_verify_sound}
use enclave_runtime.Zfs.Generation.{from_store, retained_body}
use enclave_runtime.Zfs.Pool.{Pool, anchor_key}
use enclave_runtime.Zfs.Pool.Open.Admission.{Admitted, on_disk-Admitted}
use enclave_runtime.Zfs.Pool.Open.{
  Opened, load, find_tip, above, is_history, linked, genesis_of, import_pool, on_disk, resume,
}

module _ (h : Host) where
  load_sound :
      (p : Pool) (seq : ℕ) (a : Anchor) (w w' : h.World)
      → load h p seq w ≡ (ok a, w')
      → (a.seq ≡ seq) × (a.pool_id ≡ p.pool_id)
  unfolding load
  load_sound p seq a w w' e =
      let (bytes, w1, e1, e2) =
        >>=-eq-ok (retained_body h (anchor_key h p seq))
          (λ bytes. lift (from_store h (decode_and_verify h bytes p.keys seq p.pool_id))) w w' e in
      by_bytes bytes w1 (ap (λ r. r.0) e2)
    where
      by_bytes :
          (bytes : Bytes) (w1 : h.World)
          → from_store h (decode_and_verify h bytes p.keys seq p.pool_id) ≡ ok a
          → (a.seq ≡ seq) × (a.pool_id ≡ p.pool_id)
      by_bytes bytes w1 f = elim (Result-cases (decode_and_verify h bytes p.keys seq p.pool_id)) [
        | inl (b, d) ↦
            let same : b ≡ a = ok_injective (rw (d, from_store) at f) in
            let s = decode_and_verify_sound h bytes p.keys seq p.pool_id a (d ∙ ap ok same) in
            (s.1, s.2)
        | inr (x, d) ↦ cc (rw (d, from_store) at f)
      ]

  -- A number is not below the floor, and a genesis is the expected one, where these are given.
  abbrev pub IsAbove : Option ℕ → ℕ → Type 0
  IsAbove none seq = Unit {0}
  IsAbove (some min) seq = min ≤ seq

  abbrev pub IsHistory : Option Bytes → Bytes → Type 0
  IsHistory none genesis = Unit {0}
  IsHistory (some expected) genesis = genesis ≡ expected

  above_sound : (o : Option ℕ) (seq : ℕ) → above h o seq ≡ ok tt → IsAbove o seq
  above_sound none seq e = tt
  above_sound (some m) seq e = leb→le m seq (ensure-ok (leb m seq) _ e)

  is_history_sound :
      (o : Option Bytes) (genesis : Bytes) → is_history h o genesis ≡ ok tt → IsHistory o genesis
  is_history_sound none genesis e = tt
  is_history_sound (some x) genesis e = bytes_beq_eq genesis x (ensure-ok (genesis == x) _ e)

  -- An anchor of the chain of a pool, as `load` answered at some moment.
  pub record Loaded (p : Pool) (seq : ℕ) (a : Anchor) : Type 0 where
    pub at_load : h.World
    pub after : h.World
    pub answer : load h p seq at_load ≡ (ok a, after)

  -- The newest anchor is the first, or names the hash of the one before it.
  abbrev pub IsLinked : Pool → Anchor → ℕ → Type 0
  IsLinked p tip seq =
      (seq ≡ 0) ⊎ ((before : Anchor) × Loaded p (seq - 1) before × (hash h before ≡ tip.prev))

  linked_sound :
      (p : Pool) (tip : Anchor) (seq : ℕ) (w w' : h.World)
      → linked h p tip seq w ≡ (ok tt, w')
      → IsLinked p tip seq
  unfolding linked
  linked_sound p tip seq w w' e = elim (Bool-cases (ltb 0 seq)) [
    | inr f ↦ inl (ground (arith, f))
    | inl t ↦
        let (before, w1, e1, f1) =
          >>=-eq-ok (load h p (seq - 1))
            (λ before. lift (ensure (hash h before == tip.prev) (broken_chain seq))) w w'
            (rw (t, linked) at e) in
        inr (
          before,
          record { at_load = w; after = w1; answer = e1 },
          bytes_beq_eq (hash h before) tip.prev
              (ensure-ok (hash h before == tip.prev) _ (ap (λ r. r.0) f1)),
        )
  ]

  -- The hash of the first anchor of the chain.
  abbrev pub IsGenesis : Pool → Anchor → ℕ → Bytes → Type 0
  IsGenesis p tip seq g =
      ((seq ≡ 0) × (g ≡ hash h tip)) ⊎ ((first : Anchor) × Loaded p 0 first × (g ≡ hash h first))

  genesis_of_sound :
      (p : Pool) (tip : Anchor) (seq : ℕ) (g : Bytes) (w w' : h.World)
      → genesis_of h p tip seq w ≡ (ok g, w')
      → IsGenesis p tip seq g
  unfolding genesis_of
  genesis_of_sound p tip seq g w w' e = elim (Bool-cases (seq == 0)) [
    | inl t ↦
        inl
          ((nat_eq.beq_iff seq 0).0 t, sym (ok_injective (ap (λ r. r.0) (rw (t, genesis_of) at e))))
    | inr f ↦
        let (first, w1, e1, f1) =
          >>=-eq-ok (load h p 0) (λ first. pure (hash h first)) w w' (rw (f, genesis_of) at e) in
        inr (
          first,
          record { at_load = w; after = w1; answer = e1 },
          sym (ok_injective (ap (λ r. r.0) f1)),
        )
  ]

  -- What a pool that `open` accepts is known to be.
  pub record IsResumed (p : Pool) (min_seq : Option ℕ) (expect_genesis : Option Bytes) (w : h.World)
      (o : Opened) : Type 0 where
    pub after_tip : h.World
    pub newest : find_tip h p w ≡ (ok (some o.last.seq), after_tip)
    pub loaded : Loaded p o.last.seq o.last
    pub same_id : o.last.pool_id ≡ p.pool_id
    pub high : IsAbove min_seq o.last.seq
    pub link : IsLinked p o.last o.last.seq
    pub begins : IsGenesis p o.last o.last.seq o.pool.genesis
    pub expected : IsHistory expect_genesis o.pool.genesis
    pub anchored_guid : o.pool.pool_guid ≡ o.last.pool_guid
    pub admitted : Admitted h p o.last

  module _ (p : Pool) (min_seq : Option ℕ) (expect_genesis : Option Bytes) where
    -- `open` from each of its steps on.
    abbrev done : Bytes → Anchor → Opened
    done g tip = record { pool = record p { genesis = g; pool_guid = tip.pool_guid }; last = tip }

    abbrev disk : Anchor → Bytes → Run h Opened
    disk tip g = on_disk h p (import_pool h p tip) >> pure (done g tip)

    abbrev history : Anchor → Bytes → Run h Opened
    history tip g = lift (is_history h expect_genesis g) >> disk tip g

    abbrev link : ℕ → Anchor → Run h Opened
    link seq tip = linked h p tip seq >> (genesis_of h p tip seq >>= history tip)

    abbrev floor : ℕ → Run h Opened
    floor seq = lift (above h min_seq seq) >> (load h p seq >>= link seq)

    -- What is known once the newest anchor is loaded.
    record Tip (w₀ : h.World) (seq : ℕ) (tip : Anchor) : Type 0 where
      after_tip : h.World
      newest : find_tip h p w₀ ≡ (ok (some seq), after_tip)
      loaded : Loaded p seq tip
      is_seq : tip.seq ≡ seq
      same_id : tip.pool_id ≡ p.pool_id
      high : IsAbove min_seq seq

    from_link :
        (w₀ : h.World) (seq : ℕ) (tip : Anchor) (o : Opened) (w w' : h.World)
        → Tip w₀ seq tip
        → link seq tip w ≡ (ok o, w')
        → IsResumed p min_seq expect_genesis w₀ o
    from_link w₀ seq tip o w w' t e =
        let (v, w1, e1, f1) =
          >>=-eq-ok (linked h p tip seq) (λ v. genesis_of h p tip seq >>= history tip) w w' e in
        let (g, w2, e2, f2) = >>=-eq-ok (genesis_of h p tip seq) (history tip) w1 w' f1 in
        let (x, w3, e3, f3) =
          >>=-eq-ok (lift (is_history h expect_genesis g)) (λ x. disk tip g) w2 w' f2 in
        let (y, w4, e4, f4) =
          >>=-eq-ok (on_disk h p (import_pool h p tip)) (λ y. pure (done g tip)) w3 w' f3 in
        let same : done g tip ≡ o = ok_injective (ap (λ r. r.0) f4) in
        let seqs : seq ≡ tip.seq = sym t.is_seq in
        subst (IsResumed p min_seq expect_genesis w₀) same (record {
          after_tip = t.after_tip;
          newest = subst (λ n. find_tip h p w₀ ≡ (ok (some n), t.after_tip)) seqs t.newest;
          loaded = subst (λ n. Loaded p n tip) seqs t.loaded;
          same_id = t.same_id;
          high = subst (IsAbove min_seq) seqs t.high;
          link = subst (IsLinked p tip) seqs (linked_sound p tip seq w w1 e1);
          begins = subst (λ n. IsGenesis p tip n g) seqs (genesis_of_sound p tip seq g w1 w2 e2);
          expected = is_history_sound expect_genesis g (ap (λ r. r.0) e3);
          anchored_guid = refl;
          admitted = on_disk-Admitted h p tip w3 w4 e4;
        })

    from_floor :
        (w₀ after_tip : h.World) (seq : ℕ) (o : Opened) (w w' : h.World)
        → find_tip h p w₀ ≡ (ok (some seq), after_tip)
        → floor seq w ≡ (ok o, w')
        → IsResumed p min_seq expect_genesis w₀ o
    from_floor w₀ after_tip seq o w w' newest e =
        let (u, w1, e1, f1) =
          >>=-eq-ok (lift (above h min_seq seq)) (λ u. load h p seq >>= link seq) w w' e in
        let (tip, w2, e2, f2) = >>=-eq-ok (load h p seq) (link seq) w1 w' f1 in
        let (is_seq, is_pool) = load_sound p seq tip w1 w2 e2 in
        from_link w₀ seq tip o w2 w'
          (record {
            after_tip = after_tip;
            newest = newest;
            loaded = record { at_load = w1; after = w2; answer = e2 };
            is_seq = is_seq;
            same_id = is_pool;
            high = above_sound min_seq seq (ap (λ r. r.0) e1);
          })
          f2

  -- A pool that is opened has the newest anchor of its chain, which is its own, is not below the floor,
  -- and is linked by hash to the anchor before it; its genesis is the hash of the chain's first anchor,
  -- and the expected one, where one is given. A real pool was imported by the anchored guid, and its
  -- guid, the txg that the kernel's notes say was loaded and the marker that it holds are what the newest
  -- anchor vouches for: no older, and marked by that anchor or by an unpublished successor of it.
  pub resume-IsResumed :
      (p : Pool) (min_seq : Option ℕ) (expect_genesis : Option Bytes) (o : Opened) (w w' : h.World)
      → resume h p min_seq expect_genesis w ≡ (ok o, w')
      → IsResumed p min_seq expect_genesis w o
  unfolding resume
  resume-IsResumed p min_seq expect_genesis o w w' e =
      let (found, w1, e1, f1) =
        >>=-eq-ok (find_tip h p)
          (λ t. lift_option (λ _. t) no_anchors >>= floor p min_seq expect_genesis) w w' e in
      let (seq, w2, e2, f2) =
        >>=-eq-ok (lift_option (λ _. found) no_anchors) (floor p min_seq expect_genesis) w1 w' f1 in
      from_floor p min_seq expect_genesis w w1 seq o w2 w'
        (e1 ∙ ap (λ t. (ok t, w1)) (found_some found seq w1 w2 e2)) f2
    where
      found_some :
          (t : Option ℕ) (n : ℕ) (u v : h.World)
          → lift_option {E = ZfsError} (λ (x : h.World). t) no_anchors u ≡ (ok n, v)
          → t ≡ some n
      found_some none n u v q = cc (ap (λ r. r.0) q)
      found_some (some m) n u v q = ap some (ok_injective (ap (λ r. r.0) q))
