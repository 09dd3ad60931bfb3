-- ===== src/Serve/Progress.antt =====
-- runtime/src/serve/progress.rs: when the watchdog lets a call that ran out of its time go on.
--
-- Each atomic access is a step of its own in the source; here `still_working` is one step, since only
-- the epoch callback asks, and a byte that arrives during the call is one that arrives before or after.
-- The counters wrap as `fetch_add` and the addition of an optimized build do. `Counting`, which only
-- passes a body on and calls `record`, is not modelled.
use enclave_runtime.Prelude.{
  ℕ, suc, zero, ◌+◌, ◌<◌, ◌%◌, ◌^◌, ◌≡◌, refl, Bool, true, false, not, ◌&&◌, List, [], ◌∷◌, ltb,
  if◌then◌else◌, arith, nat_eq, ◌==◌, ap, length, All,
}

pub record StreamProgress : Type 0 where
  pub bytes : ℕ
  pub last_seen : ℕ
  pub head_sent : Bool
  pub strikes : ℕ

unfoldable pub new : StreamProgress
new = record { bytes = 0; last_seen = 0; head_sent = false; strikes = 0 }

-- StreamProgress::record
unfoldable pub record_bytes : ℕ → StreamProgress → StreamProgress
record_bytes n p = record p { bytes = (p.bytes + n) % 2 ^ 64 }

unfoldable pub reset : StreamProgress → StreamProgress
reset p = record p { bytes = 0; last_seen = 0; strikes = 0; head_sent = false }

-- StreamProgress::head_sent
unfoldable pub set_head_sent : StreamProgress → StreamProgress
set_head_sent p = record p { head_sent = true }

unfoldable pub still_working : ℕ → StreamProgress → Bool × StreamProgress
still_working limit p =
    let seen : StreamProgress = record p { last_seen = p.bytes } in
    if not (p.last_seen == p.bytes)
    then (true, record seen { strikes = 0 })
    else if not p.head_sent
    then (false, seen)
    else (ltb ((p.strikes + 1) % 2 ^ 32) limit, record seen { strikes = (p.strikes + 1) % 2 ^ 32 })

-- Whether every expiry of a call lets it go on, where the list gives the bytes that moved before each.
unfoldable pub survives : ℕ → List ℕ → StreamProgress → Bool
unfolding still_working record_bytes
survives limit [] p = true
survives limit (n ∷ ns) p =
    let (on, p') = still_working limit (record_bytes n p) in
    let rest = survives limit ns p' in on && rest

-- The rule that the watch is to follow: as many silent expiries in a row as the limit end the call.
pub tolerates : ℕ → ℕ → List ℕ → Bool
tolerates limit silent [] = true
tolerates limit silent (zero ∷ ns) = ltb (silent + 1) limit && tolerates limit (silent + 1) ns
tolerates limit silent (suc n ∷ ns) = tolerates limit 0 ns

-- Between two expiries the epoch has looked at every byte so far, and no counter is out of its range.
pub record Watched (p : StreamProgress) : Type 0 where
  pub seen : p.last_seen ≡ p.bytes
  pub sent : p.head_sent ≡ true
  pub bounded : p.bytes < 2 ^ 64

moved : (b n : ℕ) → b < 2 ^ 64 → n < 2 ^ 64 → 0 < n → (b == (b + n) % 2 ^ 64) ≡ false
moved b n h h' pos = ground arith

-- The watch after an expiry that saw nothing, and after one that saw `n` bytes.
abbrev quiet : StreamProgress → StreamProgress
quiet p = record p { last_seen = p.bytes; strikes = p.strikes + 1 }

abbrev busy : ℕ → StreamProgress → StreamProgress
busy n p = record p {
  bytes = (p.bytes + n) % 2 ^ 64;
  last_seen = (p.bytes + n) % 2 ^ 64;
  strikes = 0;
}

still_working_silent :
    (limit : ℕ) (p : StreamProgress)
    → Watched p
    → p.strikes + 1 < 2 ^ 32
    → still_working limit (record_bytes 0 p) ≡ (ltb (p.strikes + 1) limit, quiet p)
unfolding still_working record_bytes
still_working_silent limit p w b =
    let e : (p.bytes + 0) % 2 ^ 64 ≡ p.bytes = omega (arith, w.bounded) in
    let m : (p.strikes + 1) % 2 ^ 32 ≡ p.strikes + 1 = omega (arith, b) in
    let same : (p.bytes == p.bytes) ≡ true = ground arith in rw (e, m, w.seen, w.sent, same) refl

still_working_moved :
    (limit n : ℕ) (p : StreamProgress)
    → Watched p
    → n < 2 ^ 64
    → 0 < n
    → still_working limit (record_bytes n p) ≡ (true, busy n p)
unfolding still_working record_bytes
still_working_moved limit n p w h pos = rw (w.seen, moved p.bytes n w.bounded h pos) refl

quiet-Watched : (p : StreamProgress) → Watched p → Watched (quiet p)
quiet-Watched p w = record { seen = refl; sent = w.sent; bounded = w.bounded }

busy-Watched : (n : ℕ) (p : StreamProgress) → Watched p → Watched (busy n p)
busy-Watched n p w = record { seen = refl; sent = w.sent; bounded = omega arith }

-- Once the response head is out, a call goes on exactly as long as there are not `limit` silent
-- expiries in a row, whatever number of bytes below 2^64 moves in between, as long as fewer than
-- 2^32 expiries are watched.
pub survives-tolerates :
    (limit : ℕ) (ns : List ℕ) (p : StreamProgress)
    → Watched p
    → All (λ n. n < 2 ^ 64) ns
    → p.strikes + length ns < 2 ^ 32
    → survives limit ns p ≡ tolerates limit p.strikes ns
unfolding survives tolerates
survives-tolerates limit [] p w a b = refl
survives-tolerates limit (zero ∷ ns) p w a b = rw (still_working_silent limit p w (omega arith)) (
    ap (λ z. ltb (p.strikes + 1) limit && z)
      (survives-tolerates limit ns (quiet p) (quiet-Watched p w) a.1 (omega arith)))
survives-tolerates limit (suc n ∷ ns) p w a b =
    rw (still_working_moved limit (suc n) p w a.0 (omega arith))
      (survives-tolerates limit ns (busy (suc n) p) (busy-Watched (suc n) p w) a.1 (omega arith))
