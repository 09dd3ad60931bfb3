-- ===== src/Auth/Token/Capacity.antt =====
-- `TokenStore` of runtime/src/auth/token.rs.
-- What bounds the token store, and what reaching the bound does not do.
use enclave_runtime.Prelude.{
  sym, ◌∙◌, bytes_beq, bytes_beq_eq, ℕ, ◌+◌, ◌≤◌, ◌≡◌, refl, ◌≢◌, inl, inr, false, List, [], ◌∷◌,
  arith, Bytes, ltb, leb, length, max, bytes_eq, Bool-cases,
}
use enclave_runtime.Prelude.Map.{
  get, keep_if, Unique, get-retain, get-insert, length-insert-le, length-remove-le,
  length-retain-le, insert-Unique, remove-Unique, retain-Unique,
}
use enclave_runtime.Auth.Token.{
  InteractionScope, approval, TokenStore, Call, issues, redeems, counts, new, sweep, issue_hash,
  issue, step, run,
}

-- The invariant of the store: the capacity is positive and is not passed, and keys are distinct.
pub record IsValid (s : TokenStore) : Type 0 where
  pub positive : 1 ≤ s.capacity
  pub bounded : length s.granted ≤ s.capacity
  pub unique : Unique s.granted

pub new-IsValid : (ttl capacity : ℕ) → IsValid (new ttl capacity)
unfolding new
new-IsValid ttl capacity = record { positive = omega arith; bounded = omega arith; unique = tt }

issue_hash-IsValid :
    (hash : Bytes) (tenant : ℕ) (scope : InteractionScope) (now : ℕ) (s : TokenStore)
    → IsValid s
    → IsValid (issue_hash hash tenant scope now s).1
unfolding issue_hash
issue_hash-IsValid hash tenant scope now s v =
    elim (Bool-cases (leb s.capacity (length (sweep now s.granted)))) [
      | inl h ↦
          rw (h, issue_hash)
            (record {
              positive = v.positive;
              bounded = omega (
                arith,
                v.bounded,
                length-retain-le (λ (_ : Bytes) g. ltb now g.expires) s.granted,
              );
              unique = retain-Unique _ s.granted v.unique;
            })
      | inr h ↦
          rw (h, issue_hash)
            (record {
              positive = v.positive;
              bounded = ground (
                arith,
                length-insert-le hash (approval tenant scope (now + s.ttl)) (sweep now s.granted),
              );
              unique = insert-Unique hash _ _ (retain-Unique _ s.granted v.unique);
            })
    ]

module _ (sha256 : Bytes → Bytes) where
  pub step-IsValid : (c : ℕ × Call) (s : TokenStore) → IsValid s → IsValid (step sha256 c s)
  unfolding step sweep
  step-IsValid (now, issues token tenant scope) s v =
      issue_hash-IsValid (sha256 token) tenant scope now s v
  step-IsValid (now, redeems token scope) s v = record {
    positive = v.positive;
    bounded = omega (arith, v.bounded, length-remove-le (sha256 token) s.granted);
    unique = remove-Unique (sha256 token) s.granted v.unique;
  }
  step-IsValid (now, counts) s v = record {
    positive = v.positive;
    bounded =
        omega (arith, v.bounded, length-retain-le (λ (_ : Bytes) g. ltb now g.expires) s.granted);
    unique = retain-Unique _ s.granted v.unique;
  }

  pub run-IsValid : (cs : List (ℕ × Call)) (s : TokenStore) → IsValid s → IsValid (run sha256 cs s)
  unfolding run
  run-IsValid [] s v = v
  run-IsValid (c ∷ cs) s v = run-IsValid cs (step sha256 c s) (step-IsValid c s v)

  step-capacity : (c : ℕ × Call) (s : TokenStore) → (step sha256 c s).capacity ≡ s.capacity
  unfolding step
  step-capacity (now, issues token tenant scope) s = ground arith
  step-capacity (now, redeems token scope) s = refl
  step-capacity (now, counts) s = refl

  run-capacity : (cs : List (ℕ × Call)) (s : TokenStore) → (run sha256 cs s).capacity ≡ s.capacity
  unfolding run
  run-capacity [] s = refl
  run-capacity (c ∷ cs) s = run-capacity cs (step sha256 c s) ∙ step-capacity c s

  -- Whatever is asked of a new store, it never holds more approvals than its capacity (at least 1).
  pub length-run-new :
      (ttl capacity : ℕ) (cs : List (ℕ × Call))
      → length (run sha256 cs (new ttl capacity)).granted ≤ max capacity 1
  unfolding new
  length-run-new ttl capacity cs = omega (
    arith,
    (run-IsValid cs (new ttl capacity) (new-IsValid ttl capacity)).bounded,
    run-capacity cs (new ttl capacity),
  )

  -- Issuing one token, whether it is admitted or the store is full, leaves every live approval under
  -- another hash as it was, and drops just those that have expired.
  pub issue_keeps_live :
      (token : Bytes) (tenant : ℕ) (scope : InteractionScope) (now : ℕ) (s : TokenStore) (j : Bytes)
      → IsValid s
      → j ≢ sha256 token
      → get j (issue sha256 token tenant scope now s).1.granted
        ≡ keep_if (λ g. ltb now g.expires) (get j s.granted)
  unfolding issue
  issue_keeps_live token tenant scope now s j v ne =
      elim (Bool-cases (leb s.capacity (length (sweep now s.granted)))) [
        | inl h ↦ rw (h, issue_hash) (get-retain _ j s.granted v.unique)
        | inr h ↦
            rw (h, issue_hash)
              (get-insert (sha256 token) j _ (sweep now s.granted)
                ∙ rw (other) (get-retain _ j s.granted v.unique))
      ]
    where
      other : bytes_beq (sha256 token) j ≡ false
      other = elim (Bool-cases (bytes_beq (sha256 token) j)) [
        | inl e ↦ absurd (ne (sym (bytes_beq_eq _ _ e)))
        | inr e ↦ e
      ]
