-- ===== src/Zfs/Pool/Open/Admission.antt =====
-- `Pool::open` of runtime/src/zfs.rs: what was imported, read and admitted of a real pool.
use enclave_runtime.Prelude.{List, [], ◌∷◌, ascii, ◌⊎◌, Bool-cases, false, not, ltb, nat_eq}
use enclave_runtime.Prelude.{
  ℕ, ◌≤◌, ◌≡◌, ap, ◌∙◌, inl, inr, true, Option, none, some, Bytes, arith, bytes_eq, ◌==◌,
}
use enclave_runtime.Prelude.Result.{
  Result, ok, err, ensure-ok, ensure-then, ok_or-then, ok_injective, Result-cases,
}
use enclave_runtime.Prelude.Exec.{>>=-eq-ok, ◌>>=◌, ◌>>◌}
use enclave_runtime.Prelude.Text.{trim, to_string}
use enclave_runtime.Zfs.Types.{Host, Run, ZfsError, call, command, command_failed, file_failed}
use enclave_runtime.Zfs.Kernel.{loaded_txg, pool_guid}
use enclave_runtime.Zfs.Anchor.{Anchor}
use enclave_runtime.Zfs.Admit.{admit, vouched}
use enclave_runtime.Zfs.Pool.{Pool}
use enclave_runtime.Zfs.Pool.Open.{admit_loaded, import_pool, on_disk, dbgmsg}

module _ (h : Host) where
  -- The state that was loaded is at the anchor or past it, is the anchored pool, and holds the marker of
  -- the anchor or of a successor that was not published.
  pub record Vouched (tip : Anchor) (loaded : Option ℕ) (held : Bytes) (guid : ℕ) : Type 0 where
    pub txg : ℕ
    pub known : loaded ≡ some txg
    pub not_older : tip.txg ≤ txg
    pub same_pool : guid ≡ tip.pool_guid
    pub marked : vouched h tip held ≡ true

  admit-Vouched :
      (tip : Anchor) (loaded : Option ℕ) (held : Bytes) (guid : ℕ)
      → admit h tip loaded held guid ≡ ok tt
      → Vouched tip loaded held guid
  unfolding admit
  admit-Vouched tip loaded held guid e =
      let (txg, known, e1) = ok_or-then loaded _ _ e in
      let (same_pool, e2) = ensure-then (guid == tip.pool_guid) _ _ e1 in
      let (not_older, e3) = ensure-then (not (ltb txg tip.txg)) _ _ e2 in
      record {
        txg = txg;
        known = known;
        not_older = ground (arith, not_older);
        same_pool = (nat_eq.beq_iff guid tip.pool_guid).0 same_pool;
        marked = ensure-ok (vouched h tip held) _ e3;
      }

  admit_loaded_sound :
      (p : Pool) (tip : Anchor) (loaded : Option ℕ) (held : Bytes) (guid : ℕ) (w w' : h.World)
      → admit_loaded h p tip loaded held guid w ≡ (ok tt, w')
      → admit h tip loaded (trim held) guid ≡ ok tt
  unfolding admit_loaded
  admit_loaded_sound p tip loaded held guid w w' e =
      elim (Result-cases (admit h tip loaded (trim held) guid)) [
        | inl (u, d) ↦ d
        | inr (x, d) ↦ cc (ap (λ r. r.0) (rw (d, admit_loaded) at e))
      ]

  call-ok :
      {A : Type 0} (m : h.World → Option A × h.World) (x : ZfsError) (w w' : h.World) {a : A}
      → call h m x w ≡ (ok a, w')
      → m w ≡ (some a, w')
  call-ok {A} m x w w' {a} e = go (m w) e
    where
      go :
          (r : Option A × h.World)
          → (elim r.0 as (λ o. Result ZfsError A × h.World) [
            | none ↦ (err x, r.1)
            | some b ↦ (ok b, r.1)
          ])
            ≡ (ok a, w')
          → r ≡ (some a, w')
      go (none, v) q = cc (ap (λ r. r.0) q)
      go (some b, v) q =
          let same : b ≡ a = ok_injective (ap (λ r. r.0) q) in
          let here : v ≡ w' = ap (λ r. r.1) q in
          ap (λ c. (some c, v)) same ∙ ap (λ u. (some a, u)) here

  -- The commands of `open` that import the pool by the anchored guid and print its marker.
  abbrev pub import_args : Pool → Anchor → List Bytes
  import_args p tip =
      ascii "import"
      ∷ ascii "-f"
      ∷ ascii "-N"
      ∷ ascii "-d"
      ∷ p.mapped
      ∷ ascii "-o"
      ∷ ascii "cachefile=none"
      ∷ to_string tip.pool_guid
      ∷ p.name
      ∷ []

  abbrev pub marker_args : Pool → List Bytes
  marker_args p =
      ascii "get" ∷ ascii "-Hp" ∷ ascii "-o" ∷ ascii "value" ∷ ascii "enclave:anchor" ∷ p.name ∷ []

  -- The pool was imported after the kernel's notes were cleared, and what was then read of it - its notes,
  -- its marker and its guid, in this order - is what the anchor vouches for.
  pub record Admission (p : Pool) (tip : Anchor) : Type 0 where
    pub at_clear : h.World
    pub at_import : h.World
    pub at_notes : h.World
    pub at_marker : h.World
    pub at_guid : h.World
    pub at_end : h.World
    pub out : Bytes
    pub notes : Bytes
    pub held : Bytes
    pub guid : ℕ
    pub cleared : h.write_file (dbgmsg h) (ascii "0") at_clear ≡ (some tt, at_import)
    pub imported : h.run (ascii "zpool") (import_args p tip) at_import ≡ (some out, at_notes)
    pub noted : h.read_file (dbgmsg h) at_notes ≡ (some notes, at_marker)
    pub printed : h.run (ascii "zfs") (marker_args p) at_marker ≡ (some held, at_guid)
    pub guid_read : pool_guid h p.name at_guid ≡ (ok guid, at_end)
    pub vouched : Vouched tip (loaded_txg notes p.name) (trim held) guid

  import_pool-Admission :
      (p : Pool) (tip : Anchor) (w w' : h.World)
      → import_pool h p tip w ≡ (ok tt, w')
      → Admission p tip
  unfolding import_pool
  import_pool-Admission p tip w w' e =
      let zpool = command h (ascii "zpool") (import_args p tip) in
      let zfs = command h (ascii "zfs") (marker_args p) in
      let notes = call h (h.read_file (dbgmsg h)) file_failed in
      let end : Bytes → Bytes → ℕ → Run h (Unit {0}) =
        λ n held guid. admit_loaded h p tip (loaded_txg n p.name) held guid in
      let (u, w1, e1, f1) =
        >>=-eq-ok (call h (h.write_file (dbgmsg h) (ascii "0")) file_failed)
          (λ u. zpool >> (notes >>= λ n. zfs >>= λ held. pool_guid h p.name >>= end n held)) w w'
          e in
      let (o, w2, e2, f2) =
        >>=-eq-ok zpool (λ o. notes >>= λ n. zfs >>= λ held. pool_guid h p.name >>= end n held) w1
          w' f1 in
      let (n, w3, e3, f3) =
        >>=-eq-ok notes (λ n. zfs >>= λ held. pool_guid h p.name >>= end n held) w2 w' f2 in
      let (held, w4, e4, f4) = >>=-eq-ok zfs (λ held. pool_guid h p.name >>= end n held) w3 w' f3 in
      let (guid, w5, e5, f5) = >>=-eq-ok (pool_guid h p.name) (end n held) w4 w' f4 in
      record {
        at_clear = w;
        at_import = w1;
        at_notes = w2;
        at_marker = w3;
        at_guid = w4;
        at_end = w5;
        out = o;
        notes = n;
        held = held;
        guid = guid;
        cleared = call-ok (h.write_file (dbgmsg h) (ascii "0")) file_failed w w1 e1;
        imported = call-ok (h.run (ascii "zpool") (import_args p tip)) command_failed w1 w2 e2;
        noted = call-ok (h.read_file (dbgmsg h)) file_failed w2 w3 e3;
        printed = call-ok (h.run (ascii "zfs") (marker_args p)) command_failed w3 w4 e4;
        guid_read = e5;
        vouched =
            admit-Vouched tip (loaded_txg n p.name) (trim held) guid
              (admit_loaded_sound p tip (loaded_txg n p.name) held guid w5 w' f5);
      }

  -- What only a real pool has.
  abbrev pub Admitted : Pool → Anchor → Type 0
  Admitted p tip = (p.pool ≡ false) ⊎ Admission p tip

  pub on_disk-Admitted :
      (p : Pool) (tip : Anchor) (w w' : h.World)
      → on_disk h p (import_pool h p tip) w ≡ (ok tt, w')
      → Admitted p tip
  on_disk-Admitted p tip w w' e = elim (Bool-cases p.pool) [
    | inr f ↦ inl f
    | inl real ↦ inr (import_pool-Admission p tip w w' (rw (real, on_disk) at e))
  ]
