-- ===== src/Auth/Token/History.antt =====
-- `TokenStore` of runtime/src/auth/token.rs.
-- What a successful redemption proves about the past: an approval of this very interaction.
use enclave_runtime.Prelude.{
  ℕ, ◌+◌, ◌<◌, ◌≡◌, refl, ap, sym, true, Option, none, some, List, [], ◌∷◌, ◌∙◌, ◌⊎◌, arith, Bytes,
  ltb, bytes_eq, bytes_beq_iff, inl, inr,
}
use enclave_runtime.Prelude.Map.{get, get-retain, get-insert, get-remove}
use enclave_runtime.Prelude.Result.{ok}
use enclave_runtime.Auth.Token.{
  InteractionScope, Granted, TokenStore, Call, issues, redeems, counts, new, sweep, check_entry,
  redeem, step, run, approval, scope_eq, query_eq,
}
use enclave_runtime.Auth.Token.Capacity.{IsValid, new-IsValid, step-IsValid}

-- The call of `issue`, at its time, that recorded `g` under `hash` in a store with this TTL.
abbrev pub Approves : (Bytes → Bytes) → ℕ → Bytes → Granted → ℕ × Call → Type 0
Approves sha256 ttl hash g (now, issues token tenant scope) =
    (sha256 token ≡ hash) × (g ≡ approval tenant scope (now + ttl))
Approves sha256 ttl hash g (now, redeems token scope) = ⊥
Approves sha256 ttl hash g (now, counts) = ⊥

abbrev pub Approved : (Bytes → Bytes) → ℕ → Bytes → Granted → List (ℕ × Call) → Type 0
Approved sha256 ttl hash g [] = ⊥
Approved sha256 ttl hash g (c ∷ cs) = Approves sha256 ttl hash g c ⊎ Approved sha256 ttl hash g cs

pub scope_eq_sound : (a b : InteractionScope) → scope_eq a b ≡ true → a ≡ b
unfolding scope_eq
scope_eq_sound a b h = λ i. record {
  method = (bytes_beq_iff a.method b.method).0 (ground arith) i;
  path = (bytes_beq_iff a.path b.path).0 (ground arith) i;
  query = query_eq_sound a.query b.query (ground arith) i;
}
  where
    query_eq_sound : (p q : Option Bytes) → query_eq p q ≡ true → p ≡ q
    query_eq_sound none none e = refl
    query_eq_sound none (some y) e = cc
    query_eq_sound (some x) none e = cc
    query_eq_sound (some x) (some y) e = ap some ((bytes_beq_iff x y).0 e)

module _ (sha256 : Bytes → Bytes) (hash : Bytes) (g : Granted) where
  step_origin :
      (c : ℕ × Call) (s : TokenStore)
      → IsValid s
      → get hash (step sha256 c s).granted ≡ some g
      → Approves sha256 s.ttl hash g c ⊎ (get hash s.granted ≡ some g)
  unfolding step sweep
  step_origin (now, issues token tenant scope) s v h = ground (
    arith,
    get-retain (λ (_ : Bytes) g. ltb now g.expires) hash s.granted v.unique,
    get-insert (sha256 token) hash (approval tenant scope (now + s.ttl)) (sweep now s.granted),
    bytes_beq_iff (sha256 token) hash,
  )
  step_origin (now, redeems token scope) s v h =
      inr (ground (arith, get-remove (sha256 token) hash s.granted))
  step_origin (now, counts) s v h =
      inr (ground (arith, get-retain (λ (_ : Bytes) g. ltb now g.expires) hash s.granted v.unique))

  step-ttl : (c : ℕ × Call) (s : TokenStore) → (step sha256 c s).ttl ≡ s.ttl
  unfolding step
  step-ttl (now, issues token tenant scope) s = ground arith
  step-ttl (now, redeems token scope) s = refl
  step-ttl (now, counts) s = refl

  run_origin :
      (ttl : ℕ) (cs : List (ℕ × Call)) (s : TokenStore)
      → IsValid s
      → s.ttl ≡ ttl
      → get hash (run sha256 cs s).granted ≡ some g
      → Approved sha256 ttl hash g cs ⊎ (get hash s.granted ≡ some g)
  unfolding run
  run_origin ttl [] s v t h = inr h
  run_origin ttl (c ∷ cs) s v t h =
      elim (run_origin ttl cs (step sha256 c s) (step-IsValid sha256 c s v) (step-ttl c s ∙ t) h) [
        | inl later ↦ inl (inr later)
        | inr here ↦ elim (step_origin c s v here) [
          | inl now ↦ inl (inl (rw (sym t) now))
          | inr before ↦ inr before
        ]
      ]

check_entry-ok :
    (o : Option Granted) (scope : InteractionScope) (now tenant : ℕ)
    → check_entry o scope now ≡ ok tenant
    → (expires : ℕ) × (o ≡ some (approval tenant scope expires)) × (now < expires)
unfolding check_entry
check_entry-ok none scope now tenant h = cc
check_entry-ok (some g) scope now tenant h =
    (g.expires, ground (arith, scope_eq_sound g.scope scope), ground arith)

-- If a redemption succeeds after any run of a new store, then an earlier call of the run issued a
-- token with the same hash, to the tenant that is returned, for exactly this interaction, and less
-- than the TTL ago.
pub redeem_sound :
    (sha256 : Bytes → Bytes) (ttl capacity : ℕ) (cs : List (ℕ × Call)) (token : Bytes)
    (scope : InteractionScope) (now tenant : ℕ)
    → (redeem sha256 token scope now (run sha256 cs (new ttl capacity))).0 ≡ ok tenant
    → (expires : ℕ) × Approved sha256 ttl (sha256 token) (approval tenant scope expires) cs
      × (now < expires)
unfolding redeem new get
redeem_sound sha256 ttl capacity cs token scope now tenant h =
    let (expires, found, live) = check_entry-ok _ scope now tenant h in
    elim (run_origin sha256 (sha256 token) (approval tenant scope expires) ttl cs (new ttl capacity)
      (new-IsValid ttl capacity) refl found) [ inl e ↦ (expires, e, live) | inr e ↦ absurd (cc) ]
