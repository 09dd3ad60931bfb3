-- ===== src/Logs/Chunks.antt =====
-- `put_chunks` of runtime/src/guest_io/cloudwatch.rs.
--
-- The payload of a record and its encoding, `encode_message` over `serde_json`, are parameters. A time is
-- in milliseconds from the Unix epoch on. The builder of an event fails only where a field is unset,
-- and both are set, so that arm is left out.
use enclave_runtime.Prelude.{
  ℕ, ◌+◌, ◌-◌, Bool, true, false, not, ◌&&◌, ◌||◌, List, [], ◌∷◌, ◌++◌, Bytes, length, ltb, leb,
  if◌then◌else◌, nat_eq,
}

abbrev pub max_put_events : ℕ
max_put_events = 10000

abbrev pub max_put_bytes : ℕ
max_put_bytes = 1000000

abbrev pub event_overhead : ℕ
event_overhead = 26

abbrev pub max_event_bytes : ℕ
max_event_bytes = 262144

abbrev pub max_record_age : ℕ
max_record_age = 3600000

pub record Stamped (P : Type 0) : Type 0 where
  pub timestamp_ms : ℕ
  pub payload : P

pub record InputLogEvent : Type 0 where
  pub timestamp : ℕ
  pub message : Bytes

pub record Chunk : Type 0 where
  pub consumed : ℕ
  pub events : List InputLogEvent

-- The variables of the loop.
pub record Packing : Type 0 where
  pub chunks : List Chunk
  pub current : List InputLogEvent
  pub bytes : ℕ
  pub dropped : ℕ
  pub sealed : ℕ

abbrev pub is_empty {ℓ} : {A : Type ℓ} → List A → Bool
is_empty [] = true
is_empty (x ∷ xs) = false

abbrev pub cost : Bytes → ℕ
cost message = length message + event_overhead

-- Whether what is gathered is to be sealed before an event of this cost.
abbrev pub is_full : ℕ → Packing → Bool
is_full c p =
    not (is_empty p.current)
    && (ltb max_put_bytes (p.bytes + c) || leb max_put_events (length p.current))

unfoldable pub seal : ℕ → Packing → Packing
seal index p = record p {
  chunks = p.chunks ++ record { consumed = index - p.sealed; events = p.current } ∷ [];
  current = [];
  sealed = index;
  bytes = 0;
}

unfoldable pub push : InputLogEvent → Packing → Packing
push e p = record p { bytes = p.bytes + cost e.message; current = p.current ++ e ∷ [] }

abbrev pub drop_one : Packing → Packing
drop_one p = record p { dropped = p.dropped + 1 }

module _ {P : Type 0} (encode : P → Bytes) where
  abbrev pub event_of : Stamped P → InputLogEvent
  event_of s = record { timestamp = s.timestamp_ms; message = encode s.payload }

  -- A record is refused if it is older than the age allowed, or larger than an event may be.
  abbrev pub is_stale : ℕ → Stamped P → Bool
  is_stale now s = ltb (s.timestamp_ms + max_record_age) now

  -- One round of the loop.
  unfoldable pub pack : ℕ → ℕ → Stamped P → Packing → Packing
  unfolding seal push
  pack now index s p =
      if is_stale now s
      then drop_one p
      else if ltb max_event_bytes (length (encode s.payload))
      then drop_one p
      else if is_full (cost (encode s.payload)) p
      then push (event_of s) (seal index p)
      else push (event_of s) p

  unfoldable pub pack_all : ℕ → ℕ → List (Stamped P) → Packing → Packing
  unfolding pack
  pack_all now index [] p = p
  pack_all now index (s ∷ records) p = pack_all now (index + 1) records (pack now index s p)

  -- put_chunks
  unfoldable pub put_chunks : List (Stamped P) → ℕ → List Chunk × ℕ
  unfolding pack_all seal
  put_chunks records now =
      let p =
        pack_all now 0 records
          (record { chunks = []; current = []; bytes = 0; dropped = 0; sealed = 0 }) in
      let whole = seal (length records) p in
      if is_empty p.current then (p.chunks, p.dropped) else (whole.chunks, p.dropped)
