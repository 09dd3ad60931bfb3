-- ===== src/Auth/Tests.antt =====
-- The stores of runtime/src/auth at concrete inputs.
use enclave_runtime.Prelude.{
  ℕ, ◌≤◌, ◌<◌, ◌≡◌, refl, none, some, List, [], ◌∷◌, Bytes, ascii, arith, length, bytes_eq, nat_eq,
}
use enclave_runtime.Prelude.Map.{get, retain, remove, insert}
use enclave_runtime.Prelude.Result.{ok, err}
use enclave_runtime.Auth.Token.{
  InteractionScope, TokenStore, new, Call, issues, redeems, counts, issue, redeem, run, new_scope,
  approval, scope_eq,
}
use enclave_runtime.Auth.Token.Capacity.{length-run-new, issue_keeps_live, IsValid}
use enclave_runtime.Auth.Token.OneUse.{spent-le-admitted, spent, admitted}
use enclave_runtime.Auth.Token.History.{redeem_sound, Approved}
use enclave_runtime.Auth.Challenge
use enclave_runtime.Auth.Challenge.Taken

-- A stand-in for the hash, which the store only compares.
abbrev toy_sha256 : Bytes → Bytes
toy_sha256 b = b

abbrev read_scope : InteractionScope
read_scope = record { method = ascii "GET"; path = ascii "/notes"; query = none }

abbrev write_scope : InteractionScope
write_scope = record { method = ascii "POST"; path = ascii "/notes"; query = some (ascii "n=1") }

abbrev first : Bytes
first = 1 ∷ 2 ∷ []

abbrev second : Bytes
second = 3 ∷ 4 ∷ []

-- Two approvals, one redemption, and a second attempt at it.
abbrev history : List (ℕ × Call)
history =
    (10, issues first 7 read_scope)
    ∷ (11, issues second 8 write_scope)
    ∷ (12, redeems first read_scope)
    ∷ (13, redeems first read_scope)
    ∷ (14, counts)
    ∷ []

abbrev store : TokenStore
store = new 60 8

-- The store after the two approvals.
abbrev two_approvals : TokenStore
two_approvals = record {
  granted = (first, approval 7 read_scope 70) ∷ (second, approval 8 write_scope 71) ∷ [];
  ttl = 60;
  capacity = 8;
}

two_approvals-IsValid : IsValid two_approvals
unfolding get
two_approvals-IsValid = record {
  positive = omega arith;
  bounded = omega arith;
  unique = (refl, (refl, tt));
}

redeem_after_history :
    (redeem toy_sha256 second write_scope 20 (run toy_sha256 history store)).0 ≡ ok 8
unfolding redeem run new get retain remove insert scope_eq
redeem_after_history = refl

new_scope_upper :
    new_scope (ascii "get") (ascii "/a") none
    ≡ record { method = ascii "GET"; path = ascii "/a"; query = none }
unfolding new_scope
new_scope_upper = refl

spent-le-admitted_example :
    spent toy_sha256 first history (new 60 8) ≤ admitted toy_sha256 first history (new 60 8)
spent-le-admitted_example = spent-le-admitted toy_sha256 first 60 8 history

redeem_sound_example :
    (expires : ℕ) × Approved toy_sha256 60 second (approval 8 write_scope expires) history
    × (20 < expires)
redeem_sound_example =
    redeem_sound toy_sha256 60 8 history second write_scope 20 8 redeem_after_history

length-run-new_example : length (run toy_sha256 history (new 60 0)).granted ≤ 1
length-run-new_example = length-run-new toy_sha256 60 0 history

issue_keeps_live_example :
    get second (issue toy_sha256 first 9 read_scope 75 two_approvals).1.granted ≡ none
unfolding get
issue_keeps_live_example =
    issue_keeps_live toy_sha256 first 9 read_scope 75 two_approvals second two_approvals-IsValid
      (λ e. cc e)

-- A store of challenges whose states are numbers, with one challenge in it.
abbrev challenges : Challenge.ChallengeStore ℕ
challenges = record {
  pending = (5, Challenge.waiting write_scope 0 50) ∷ [];
  ttl = 60;
  capacity = 4;
}

challenges-IsValid : Taken.IsValid challenges
unfolding get
challenges-IsValid = record { positive = omega arith; bounded = omega arith; unique = (refl, tt) }

issue_admitted : (Challenge.issue 9 read_scope 42 10 challenges).0 ≡ ok tt
unfolding Challenge.issue retain
issue_admitted = refl

consume-run-issue_example :
    (Challenge.consume 9 30 (
      Challenge.run
        ((12, Challenge.consumes 5) ∷ (13, Challenge.counts) ∷ [])
        (Challenge.issue 9 read_scope 42 10 challenges).1)).0
    ≡ ok (read_scope, 42)
consume-run-issue_example =
    Taken.consume-run-issue 9 10 30 read_scope 42 challenges
      ((12, Challenge.consumes 5) ∷ (13, Challenge.counts) ∷ []) challenges-IsValid issue_admitted
      (omega arith, omega arith, (omega arith, tt))

consume-run-consume_example :
    (Challenge.consume 5 40 (
      Challenge.run
        ((12, Challenge.issues 6 read_scope 1) ∷ [])
        (Challenge.consume 5 11 challenges).1)).0
    ≡ err Challenge.unknown
consume-run-consume_example =
    Taken.consume-run-consume 5 11 40 challenges ((12, Challenge.issues 6 read_scope 1) ∷ [])
      challenges-IsValid (omega arith, tt)
