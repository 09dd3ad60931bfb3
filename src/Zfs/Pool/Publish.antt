-- ===== src/Zfs/Pool/Publish.antt =====
-- `Pool::publish` of runtime/src/zfs.rs: two writers of one anchor cannot both win.
use mathlib.Core.Path.{subst}
use mathlib.Core.Option.{some-injective}
use enclave_runtime.Prelude.{
  ℕ, ◌≡◌, refl, sym, ap, ◌∙◌, true, Option, none, some, List, ◌++◌, Bytes, bytes_eq, bytes_beq_eq,
  ◌==◌,
}
use enclave_runtime.Prelude.Result.{ok, err, ensure-ok}
use enclave_runtime.Prelude.{ascii}
use enclave_runtime.Prelude.Words.{be_bytes}
use enclave_runtime.Prelude.Exec.{bind-keeps, >>=-eq-ok, ◌>>=◌}
use enclave_runtime.Store.Types.{StoreError, StoreResult, PutBlobInput}
use enclave_runtime.Zfs.Tip.{is_not_found}
use enclave_runtime.Zfs.Types.{Host, retain_until, locked}
use enclave_runtime.Zfs.Generation.{from_store, retained_body, put_new}
use enclave_runtime.Zfs.Pool.{Pool, anchor_key, settle_publish, publish}

-- The retained objects of a bucket under compliance locks: a read tells the retained version of a
-- key, or that there is none, and no call changes it.
module _ (h : Host) (value : h.World → Bytes → Option Bytes) where
  abbrev pub Keeps : h.World → h.World → Type 0
  Keeps w w' = (key body : Bytes) → value w key ≡ some body → value w' key ≡ some body

  pub record Pinned : Type 0 where
    pub told :
        (key body : Bytes) (w : h.World)
        → (h.get_retained_blob key w).0 ≡ ok body
        → value (h.get_retained_blob key w).1 key ≡ some body
    pub denied :
        (key : Bytes) (w : h.World) (e : StoreError)
        → (h.get_retained_blob key w).0 ≡ err e
        → is_not_found e ≡ true
        → value w key ≡ none
    pub kept_get : (key : Bytes) (w : h.World) → Keeps w (h.get_retained_blob key w).1
    pub kept_put :
        (input : PutBlobInput) (w : h.World) → Keeps w (h.put_blob_if_not_exists input w).1
    pub kept_now : (w : h.World) → Keeps w (h.now w).1
    pub kept_fill : (n : ℕ) (w : h.World) → Keeps w (h.fill n w).1
    pub kept_run :
        (program : Bytes) (args : List Bytes) (w : h.World) → Keeps w (h.run program args w).1
    pub kept_read : (path : Bytes) (w : h.World) → Keeps w (h.read_file path w).1

module _ (h : Host) (value : h.World → Bytes → Option Bytes) (law : Pinned h value) where
  from_store-ok : {A : Type 0} (r : StoreResult A) {a : A} → from_store h r ≡ ok a → r ≡ ok a
  from_store-ok (ok x) e = cc
  from_store-ok (err x) e = cc

  pub retained_body-value :
      (key body : Bytes) (w w' : h.World)
      → retained_body h key w ≡ (ok body, w')
      → value w' key ≡ some body
  unfolding retained_body
  retained_body-value key body w w' e =
      let read = from_store-ok (h.get_retained_blob key w).0 (ap (λ r. r.0) e) in
      subst (λ v. value v key ≡ some body) (ap (λ r. r.1) e) (law.told key body w read)

  retained_body-Keeps : (key : Bytes) (w : h.World) → Keeps h value w (retained_body h key w).1
  unfolding retained_body
  retained_body-Keeps key w = law.kept_get key w

  retain_until-Keeps : (n : ℕ) (w : h.World) → Keeps h value w (retain_until h n w).1
  unfolding retain_until
  retain_until-Keeps n w = go (h.now w).0 refl
    where
      go : (r : Option ℕ) → (h.now w).0 ≡ r → Keeps h value w (retain_until h n w).1
      go none e = rw (e, retain_until) (law.kept_now w)
      go (some t) e = rw (e, retain_until) (law.kept_now w)

  pub Keeps-trans : (u v w : h.World) → Keeps h value u v → Keeps h value v w → Keeps h value u w
  Keeps-trans u v w a b key body e = b key body (a key body e)

  settle_publish-Keeps :
      (key : Bytes) (seq : ℕ) (body : Bytes) (r : StoreResult (Unit {0})) (w : h.World)
      → Keeps h value w (settle_publish h key seq body r w).1
  unfolding settle_publish
  settle_publish-Keeps key seq body (ok u) w =
      bind-keeps (Keeps h value) (retained_body h key) _ Keeps-trans (retained_body-Keeps key)
        (λ theirs w' k b e. e) w
  settle_publish-Keeps key seq body (err x) w = λ k b e. e

  pub publish-Keeps :
      (p : Pool) (seq : ℕ) (body : Bytes) (w : h.World) → Keeps h value w (publish h p seq body w).1
  unfolding publish
  publish-Keeps p seq body w =
      let key = anchor_key h p seq in
      bind-keeps (Keeps h value) (retain_until h p.retention) _ Keeps-trans
        (retain_until-Keeps p.retention)
        (λ until.
          bind-keeps (Keeps h value) (put_new h (locked h key body until))
            (settle_publish h key seq body) Keeps-trans (law.kept_put (locked h key body until))
            (λ r. settle_publish-Keeps key seq body r))
        w

  settle_publish-value :
      (key : Bytes) (seq : ℕ) (body : Bytes) (r : StoreResult (Unit {0})) (w w' : h.World)
      → settle_publish h key seq body r w ≡ (ok tt, w')
      → value w' key ≡ some body
  unfolding settle_publish
  settle_publish-value key seq body (ok u) w w' e =
      let (theirs, mid, read, same) = >>=-eq-ok (retained_body h key) _ w w' e in
      let eq : theirs ≡ body =
        bytes_beq_eq theirs body (ensure-ok (theirs == body) _ (ap (λ r. r.0) same)) in
      let here : mid ≡ w' = ap (λ r. r.1) same in
      subst (λ v. value v key ≡ some body) here
        (subst (λ b. value mid key ≡ some b) eq (retained_body-value key theirs w mid read))
  settle_publish-value key seq body (err x) w w' e = cc

  pub publish-value :
      (p : Pool) (seq : ℕ) (body : Bytes) (w w' : h.World)
      → publish h p seq body w ≡ (ok tt, w')
      → value w' (anchor_key h p seq) ≡ some body
  unfolding publish
  publish-value p seq body w w' e =
      let key = anchor_key h p seq in
      let (until, w1, timed, e1) =
        >>=-eq-ok (retain_until h p.retention)
          (λ until. put_new h (locked h key body until) >>= settle_publish h key seq body) w w' e in
      let (r, w2, stored, e2) =
        >>=-eq-ok (put_new h (locked h key body until)) (settle_publish h key seq body) w1 w' e1 in
      settle_publish-value key seq body r w2 w' e2

  same_key :
      (p q : Pool) (seq : ℕ)
      → p.anchor_prefix ≡ q.anchor_prefix
      → anchor_key h p seq ≡ anchor_key h q seq
  unfolding anchor_key
  same_key p q seq same = ap (λ x. x ++ (ascii "anchors/" ++ h.hex (be_bytes 8 seq))) same

  -- When two writers of one anchor of a pool's chain both succeed, whatever happens between them, they
  -- published the same bytes, in a bucket that keeps a retained object as it is.
  pub publish_once :
      (p q : Pool) (seq : ℕ) (mine theirs : Bytes) (w w1 w2 w3 : h.World)
      → p.anchor_prefix ≡ q.anchor_prefix
      → publish h p seq mine w ≡ (ok tt, w1)
      → Keeps h value w1 w2
      → publish h q seq theirs w2 ≡ (ok tt, w3)
      → mine ≡ theirs
  publish_once p q seq mine theirs w w1 w2 w3 same first between second =
      let key = anchor_key h p seq in
      let at_end : value w3 key ≡ some mine =
        subst (λ v. value v key ≡ some mine) (ap (λ r. r.1) second)
          (publish-Keeps q seq theirs w2 key mine
            (between key mine (publish-value p seq mine w w1 first))) in
      let theirs_there : value w3 key ≡ some theirs =
        rw (same_key p q seq same) (publish-value q seq theirs w2 w3 second) in
      some-injective mine theirs (sym at_end ∙ theirs_there)
