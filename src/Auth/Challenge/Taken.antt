-- ===== src/Auth/Challenge/Taken.antt =====
-- `ChallengeStore` of runtime/src/auth/challenge.rs.
-- A challenge that was not consumed in between is consumed with what was recorded for it, exactly
-- until its TTL has passed, and then never again.
use enclave_runtime.Prelude.{
  ℕ, ◌+◌, ◌≤◌, ◌≡◌, ◌≢◌, ap, ◌∙◌, none, some, List, [], ◌∷◌, arith, ltb, leb, lt→ltb, ◌<◌, length,
  if◌then◌else◌, nat_eq, inl, inr, Bool-cases,
}
use enclave_runtime.Prelude.Map.{
  get, keep_if, Unique, get-retain, get-insert, get-remove, length-insert-le, length-remove-le,
  length-retain-le, insert-Unique, remove-Unique, retain-Unique, get-remove_self, get-insert_self,
}
use enclave_runtime.Prelude.Result.{ok, err}
use enclave_runtime.Auth.Token.{InteractionScope}
use enclave_runtime.Auth.Challenge.{
  Pending, ChallengeStore, unknown, expired, Call, issues, consumes, counts, waiting, new, sweep,
  issue, consume, check_entry, step, run,
}

module _ {S : Type 0} where
  -- The invariant of the store.
  pub record IsValid (s : ChallengeStore S) : Type 0 where
    pub positive : 1 ≤ s.capacity
    pub bounded : length s.pending ≤ s.capacity
    pub unique : Unique s.pending

  pub new-IsValid : (ttl capacity : ℕ) → IsValid (new ttl capacity)
  unfolding new
  new-IsValid ttl capacity = record { positive = omega arith; bounded = omega arith; unique = tt }

  swept_bound : (now : ℕ) (s : ChallengeStore S) → length (sweep now s.pending) ≤ length s.pending
  unfolding sweep
  swept_bound now s = length-retain-le _ s.pending

  swept-Unique : (now : ℕ) (s : ChallengeStore S) → Unique s.pending → Unique (sweep now s.pending)
  unfolding sweep
  swept-Unique now s u = retain-Unique _ s.pending u

  issue-IsValid :
      (id : ℕ) (scope : InteractionScope) (state : S) (now : ℕ) (s : ChallengeStore S)
      → IsValid s
      → IsValid (issue id scope state now s).1
  unfolding issue
  issue-IsValid id scope state now s v =
      elim (Bool-cases (leb s.capacity (length (sweep now s.pending)))) [
        | inl h ↦
            rw (h, issue)
              (record {
                positive = v.positive;
                bounded = omega (arith, v.bounded, swept_bound now s);
                unique = swept-Unique now s v.unique;
              })
        | inr h ↦
            rw (h, issue)
              (record {
                positive = v.positive;
                bounded = ground (
                  arith,
                  length-insert-le id (waiting scope state (now + s.ttl)) (sweep now s.pending),
                );
                unique = insert-Unique id _ _ (swept-Unique now s v.unique);
              })
      ]

  pub step-IsValid : (c : ℕ × Call S) (s : ChallengeStore S) → IsValid s → IsValid (step c s)
  unfolding step
  step-IsValid (now, issues id scope state) s v = issue-IsValid id scope state now s v
  step-IsValid (now, consumes id) s v = record {
    positive = v.positive;
    bounded = omega (arith, v.bounded, length-remove-le id s.pending);
    unique = remove-Unique id s.pending v.unique;
  }
  step-IsValid (now, counts) s v = record {
    positive = v.positive;
    bounded = omega (arith, v.bounded, swept_bound now s);
    unique = swept-Unique now s v.unique;
  }

  -- A run that issues no challenge under `id`.
  abbrev pub NotIssued : ℕ → List (ℕ × Call S) → Type 0
  NotIssued id [] = Unit
  NotIssued id ((now, issues i scope state) ∷ cs) = (i ≢ id) × NotIssued id cs
  NotIssued id ((now, consumes i) ∷ cs) = NotIssued id cs
  NotIssued id ((now, counts) ∷ cs) = NotIssued id cs

  -- A run that neither issues nor consumes `id`, and whose times are before `deadline`.
  abbrev pub Leaves : ℕ → ℕ → List (ℕ × Call S) → Type 0
  Leaves id deadline [] = Unit
  Leaves id deadline ((now, issues i scope state) ∷ cs) =
      (i ≢ id) × (now < deadline) × Leaves id deadline cs
  Leaves id deadline ((now, consumes i) ∷ cs) = (i ≢ id) × (now < deadline) × Leaves id deadline cs
  Leaves id deadline ((now, counts) ∷ cs) = (now < deadline) × Leaves id deadline cs

  get-sweep :
      (id now : ℕ) (s : ChallengeStore S)
      → Unique s.pending
      → get id (sweep now s.pending) ≡ keep_if (λ p. ltb now p.expires) (get id s.pending)
  unfolding sweep
  get-sweep id now s u = get-retain _ id s.pending u

  get-issue :
      (i id : ℕ) (scope : InteractionScope) (state : S) (now : ℕ) (s : ChallengeStore S)
      → i ≢ id
      → Unique s.pending
      → get id (issue i scope state now s).1.pending
        ≡ keep_if (λ p. ltb now p.expires) (get id s.pending)
  unfolding issue
  get-issue i id scope state now s ne u = ground (
    arith,
    get-sweep id now s u,
    get-insert i id (waiting scope state (now + s.ttl)) (sweep now s.pending),
  )

  run_absent :
      (id : ℕ) (cs : List (ℕ × Call S)) (s : ChallengeStore S)
      → NotIssued id cs
      → IsValid s
      → get id s.pending ≡ none
      → get id (run cs s).pending ≡ none
  unfolding run
  run_absent id [] s l v h = h
  run_absent id ((now, issues i scope state) ∷ cs) s l v h =
      run_absent id cs _ l.1 (issue-IsValid i scope state now s v)
        (get-issue i id scope state now s l.0 v.unique ∙ rw h)
  run_absent id ((now, consumes i) ∷ cs) s l v h =
      run_absent id cs _ l (step-IsValid (now, consumes i) s v)
        (ground (arith, get-remove i id s.pending))
  run_absent id ((now, counts) ∷ cs) s l v h =
      run_absent id cs _ l (step-IsValid (now, counts) s v) (get-sweep id now s v.unique ∙ rw h)

  run_keeps :
      (id : ℕ) (p : Pending S) (cs : List (ℕ × Call S)) (s : ChallengeStore S)
      → Leaves id p.expires cs
      → IsValid s
      → get id s.pending ≡ some p
      → get id (run cs s).pending ≡ some p
  unfolding run
  run_keeps id p [] s l v h = h
  run_keeps id p ((now, issues i scope state) ∷ cs) s l v h =
      run_keeps id p cs _ l.2 (issue-IsValid i scope state now s v)
        (get-issue i id scope state now s l.0 v.unique ∙ rw (h, lt→ltb _ _ l.1))
  run_keeps id p ((now, consumes i) ∷ cs) s l v h =
      run_keeps id p cs _ l.2 (step-IsValid (now, consumes i) s v)
        (ground (arith, get-remove i id s.pending))
  run_keeps id p ((now, counts) ∷ cs) s l v h =
      run_keeps id p cs _ l.1 (step-IsValid (now, counts) s v)
        (get-sweep id now s v.unique ∙ rw (h, lt→ltb _ _ l.0))

  run-IsValid : (cs : List (ℕ × Call S)) (s : ChallengeStore S) → IsValid s → IsValid (run cs s)
  unfolding run
  run-IsValid [] s v = v
  run-IsValid (c ∷ cs) s v = run-IsValid cs (step c s) (step-IsValid c s v)

  -- A challenge that was issued at `start`, and that nobody consumes or issues again, is answered with
  -- the interaction and the state that were recorded for it if it is consumed before its TTL has
  -- passed, and as expired after; the calls in between come before its end.
  pub consume-run-issue :
      (id start now : ℕ) (scope : InteractionScope) (state : S) (s : ChallengeStore S)
      (cs : List (ℕ × Call S))
      → IsValid s
      → (issue id scope state start s).0 ≡ ok tt
      → Leaves id (start + s.ttl) cs
      → (consume id now (run cs (issue id scope state start s).1)).0
        ≡ (if ltb now (start + s.ttl) then ok (scope, state) else err expired)
  unfolding consume
  consume-run-issue id start now scope state s cs v admitted l =
      ap (λ o. check_entry o now)
        (run_keeps id (waiting scope state (start + s.ttl)) cs (issue id scope state start s).1 l
          (issue-IsValid id scope state start s v) recorded)
      ∙ (unfold check_entry in ground arith)
    where
      recorded :
          get id (issue id scope state start s).1.pending
          ≡ some (waiting scope state (start + s.ttl))
      recorded =
          unfold issue in
          ground (
            arith,
            get-insert_self id (waiting scope state (start + s.ttl)) (sweep start s.pending),
            admitted,
          )

  -- Once it was consumed, with whatever result, a challenge stays unknown for as long as no challenge
  -- is issued under its id.
  pub consume-run-consume :
      (id now later : ℕ) (s : ChallengeStore S) (cs : List (ℕ × Call S))
      → IsValid s
      → NotIssued id cs
      → (consume id later (run cs (consume id now s).1)).0 ≡ err unknown
  unfolding consume step
  consume-run-consume id now later s cs v l =
      ap (λ o. check_entry o later)
        (run_absent id cs _ l (step-IsValid (now, consumes id) s v) (get-remove_self id s.pending))
