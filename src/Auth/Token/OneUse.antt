-- ===== src/Auth/Token/OneUse.antt =====
-- `TokenStore` of runtime/src/auth/token.rs.
-- A token is spent at most once for each time it was issued.
use enclave_runtime.Prelude.{
  ℕ, ◌+◌, ◌≤◌, ◌≡◌, ap, Bool, Option, none, some, List, [], ◌∷◌, arith, Bytes, ltb, bytes_eq,
  if◌then◌else◌, bytes_beq, bytes_beq_iff,
}
use enclave_runtime.Prelude.Map.{get, keep_if, get-retain, get-insert, get-remove, get-remove_self}
use enclave_runtime.Prelude.Result.{Result, ok, err}
use enclave_runtime.Auth.Token.{
  InteractionScope, Granted, TokenStore, Call, issues, redeems, counts, TokenError, unknown, new,
  sweep, check_entry, issue, redeem, step, approval,
}
use enclave_runtime.Auth.Token.Capacity.{IsValid, new-IsValid, step-IsValid}

-- 1 for a success, so that successes can be added up.
abbrev pub succeeded : {A : Type 0} → Result TokenError A → ℕ
succeeded (ok a) = 1
succeeded (err e) = 0

abbrev pub counted : Bool → ℕ → ℕ
counted b n = if b then n else 0

abbrev pub held : Option Granted → ℕ
held none = 0
held (some g) = 1

module _ (sha256 : Bytes → Bytes) (hash : Bytes) where
  -- How often one call of the run admits, or spends, a token that hashes to `hash`.
  abbrev pub admits : ℕ × Call → TokenStore → ℕ
  admits (now, issues token tenant scope) s =
      counted (bytes_beq (sha256 token) hash) (succeeded (issue sha256 token tenant scope now s).0)
  admits (now, redeems token scope) s = 0
  admits (now, counts) s = 0

  abbrev pub spends : ℕ × Call → TokenStore → ℕ
  spends (now, issues token tenant scope) s = 0
  spends (now, redeems token scope) s =
      counted (bytes_beq (sha256 token) hash) (succeeded (redeem sha256 token scope now s).0)
  spends (now, counts) s = 0

  pub admitted : List (ℕ × Call) → TokenStore → ℕ
  admitted [] s = 0
  admitted (c ∷ cs) s = admits c s + admitted cs (step sha256 c s)

  pub spent : List (ℕ × Call) → TokenStore → ℕ
  spent [] s = 0
  spent (c ∷ cs) s = spends c s + spent cs (step sha256 c s)

  held-keep_if : (p : Granted → Bool) (o : Option Granted) → held (keep_if p o) ≤ held o
  held-keep_if p none = omega arith
  held-keep_if p (some g) = ground arith

  step_budget :
      (c : ℕ × Call) (s : TokenStore)
      → IsValid s
      → spends c s + held (get hash (step sha256 c s).granted)
        ≤ admits c s + held (get hash s.granted)
  unfolding step sweep
  step_budget (now, issues token tenant scope) s v = ground (
    arith,
    get-retain (λ (_ : Bytes) g. ltb now g.expires) hash s.granted v.unique,
    get-insert (sha256 token) hash (approval tenant scope (now + s.ttl)) (sweep now s.granted),
    held-keep_if (λ g. ltb now g.expires) (get hash s.granted),
  )
  step_budget (now, redeems token scope) s v = ground (
    arith,
    get-remove (sha256 token) hash s.granted,
    bytes_beq_iff (sha256 token) hash,
    λ (q : sha256 token ≡ hash). ap (λ (k : Bytes). get k s.granted) q,
  )
  step_budget (now, counts) s v = omega (
    arith,
    held-keep_if (λ g. ltb now g.expires) (get hash s.granted),
    ap held (get-retain (λ (_ : Bytes) g. ltb now g.expires) hash s.granted v.unique),
  )

  spent_budget :
      (cs : List (ℕ × Call)) (s : TokenStore)
      → IsValid s
      → spent cs s ≤ admitted cs s + held (get hash s.granted)
  unfolding spent admitted
  spent_budget [] s v = omega arith
  spent_budget (c ∷ cs) s v =
      omega
        (arith, step_budget c s v, spent_budget cs (step sha256 c s) (step-IsValid sha256 c s v))

  -- In any run of a new store, in whatever order the callers take the lock, the redemptions of a token
  -- that succeed are at most as many as the times that it was admitted.
  pub spent-le-admitted :
      (ttl capacity : ℕ) (cs : List (ℕ × Call))
      → spent cs (new ttl capacity) ≤ admitted cs (new ttl capacity)
  unfolding new get
  spent-le-admitted ttl capacity cs =
      omega (arith, spent_budget cs (new ttl capacity) (new-IsValid ttl capacity))

-- A token that was offered once, for whatever interaction and with whatever result, is unknown after.
pub redeem_twice :
    (sha256 : Bytes → Bytes) (token : Bytes) (scope other : InteractionScope) (now later : ℕ)
    (s : TokenStore)
    → (redeem sha256 token other later (redeem sha256 token scope now s).1).0 ≡ err unknown
unfolding redeem
redeem_twice sha256 token scope other now later s =
    ap (λ o. check_entry o other later) (get-remove_self (sha256 token) s.granted)
