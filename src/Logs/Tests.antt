-- ===== src/Logs/Tests.antt =====
-- Batches of records at concrete inputs.
use enclave_runtime.Prelude.{ℕ, ◌+◌, ◌≡◌, refl, List, [], ◌∷◌, Bytes, length}
use enclave_runtime.Logs.Chunks.{Stamped, put_chunks}
use enclave_runtime.Logs.Sent.{all_events, kept, put_chunks-kept}

-- A payload that is its own encoding.
abbrev plain : Bytes → Bytes
plain b = b

abbrev at : ℕ → Bytes → Stamped Bytes
at t b = record { timestamp_ms = t; payload = b }

-- A record that is an hour and more old, and two that are not.
abbrev batch : List (Stamped Bytes)
batch = at 10 (1 ∷ []) ∷ at 4000000 (2 ∷ []) ∷ at 4000001 (3 ∷ 4 ∷ []) ∷ []

put_chunks_once : put_chunks plain batch 4000002 ≡ (
  record {
    consumed = 3;
    events =
        record { timestamp = 4000000; message = 2 ∷ [] }
        ∷ record { timestamp = 4000001; message = 3 ∷ 4 ∷ [] }
        ∷ [];
  }
      ∷ [],
  1,
)
unfolding put_chunks
put_chunks_once = refl

put_chunks-kept_example :
    (all_events (put_chunks plain batch 4000002).0 ≡ kept plain 4000002 batch)
    × ((put_chunks plain batch 4000002).1 + length (kept plain 4000002 batch) ≡ 3)
put_chunks-kept_example = put_chunks-kept plain batch 4000002
