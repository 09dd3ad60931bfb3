-- ===== src/Auth/Challenge.antt =====
-- runtime/src/auth/challenge.rs: WebAuthn challenges, each taken at most once.
--
-- `webauthn_rs`'s `PasskeyAuthentication` is the type parameter of the store. An id of 16 bytes is
-- the number that the bytes spell. `Instant::now()` is an argument of each call.
pub mod Taken
use enclave_runtime.Prelude.{
  ℕ, ◌+◌, Option, none, some, List, [], ◌∷◌, ltb, leb, length, max, if◌then◌else◌, nat_eq,
}
use enclave_runtime.Prelude.Map.{Map, get, insert, remove, retain}
use enclave_runtime.Prelude.Result.{Result, ok, err}
use enclave_runtime.Auth.Token.{InteractionScope}

abbrev pub default_ttl : ℕ
default_ttl = 60

abbrev pub default_capacity : ℕ
default_capacity = 1024

pub record Pending (S : Type 0) : Type 0 where
  pub scope : InteractionScope
  pub state : S
  pub expires : ℕ

pub data ChallengeError : Type 0 where
  unknown expired full : ChallengeError

pub record ChallengeStore (S : Type 0) : Type 0 where
  pub pending : Map ℕ (Pending S)
  pub ttl : ℕ
  pub capacity : ℕ

module _ {S : Type 0} where
  abbrev pub waiting : InteractionScope → S → ℕ → Pending S
  waiting scope state expires = record { scope = scope; state = state; expires = expires }

  -- ChallengeStore::new
  unfoldable pub new : ℕ → ℕ → ChallengeStore S
  new ttl capacity = record { pending = []; ttl = ttl; capacity = max capacity 1 }

  -- The sweep that `issue` and `outstanding` make first.
  unfoldable pub sweep : ℕ → Map ℕ (Pending S) → Map ℕ (Pending S)
  sweep now = retain (λ _ p. ltb now p.expires)

  -- ChallengeStore::issue
  unfoldable pub issue :
      ℕ
      → InteractionScope
      → S
      → ℕ
      → ChallengeStore S
      → Result ChallengeError (Unit {0}) × ChallengeStore S
  unfolding sweep
  issue id scope state now s =
      let pending = sweep now s.pending in
      if leb s.capacity (length pending)
      then (err full, record s { pending = pending })
      else (ok tt, record s { pending = insert id (waiting scope state (now + s.ttl)) pending })

  -- ChallengeStore::consume, once `remove` has answered.
  unfoldable pub check_entry : Option (Pending S) → ℕ → Result ChallengeError (InteractionScope × S)
  check_entry none now = err unknown
  check_entry (some entry) now =
      if leb entry.expires now then err expired else ok (entry.scope, entry.state)

  -- ChallengeStore::consume
  unfoldable pub consume :
      ℕ → ℕ → ChallengeStore S → Result ChallengeError (InteractionScope × S) × ChallengeStore S
  unfolding check_entry
  consume id now s =
      (check_entry (get id s.pending) now, record s { pending = remove id s.pending })

  -- ChallengeStore::outstanding
  unfoldable pub outstanding : ℕ → ChallengeStore S → ℕ × ChallengeStore S
  unfolding sweep
  outstanding now s =
      let pending = sweep now s.pending in (length pending, record s { pending = pending })

-- A call that takes the lock, with the time that it reads.
pub data Call (S : Type 0) : Type 0 where
  issues : ℕ → InteractionScope → S → Call S
  consumes : ℕ → Call S
  counts : Call S

module _ {S : Type 0} where
  unfoldable pub step : ℕ × Call S → ChallengeStore S → ChallengeStore S
  unfolding issue consume outstanding
  step (now, issues id scope state) s = (issue id scope state now s).1
  step (now, consumes id) s = (consume id now s).1
  step (now, counts) s = (outstanding now s).1

  unfoldable pub run : List (ℕ × Call S) → ChallengeStore S → ChallengeStore S
  unfolding step
  run [] s = s
  run (c ∷ cs) s = run cs (step c s)
