-- ===== src/Lib.antt =====
-- The enclave runtime: a Rust program that runs a WebAssembly guest in a Nitro enclave and keeps the
-- guest's state in a bucket that it does not trust.
--
-- Parts, and how they meet. On start `boot` (runtime/src/boot.rs) reads what the bucket holds under
-- Object Lock, asks the key source for the master key, opens or creates the pool, and checks signed
-- documents (crates/nitro-attestation) against the state that it opened. The bucket is reached through
-- the `Backend` trait (runtime/src/store/backend/mod.rs), which the in-memory backend implements for
-- tests and the emulator. A running server checks a slot out for each call
-- (runtime/src/serve/pool.rs), watches long calls (runtime/src/serve/progress.rs), and lets a guest be
-- reached only with an approval that a passkey has given (runtime/src/auth). A guest leaves work for
-- later in a durable queue (runtime/src/tasks.rs), and its log is sent off in calls of limited size
-- (runtime/src/guest_io/cloudwatch.rs). The state lives in ZFS pools on a disk that the host can rewind
-- (runtime/src/zfs.rs): before anyone is told of a write, a signed anchor that names the pool's newest
-- txg is published in the bucket, each linked to the one before, and a boot takes a pool only if the
-- newest anchor vouches for it. A boot first claims a generation, which fences the boots before it.
-- What the key service sends is rewritten from BER to DER (runtime/src/keys/ber.rs). A tenant's devices,
-- which it can be woken on, are kept in memory and on the disk (runtime/src/notify/device.rs).
--
-- Files:
--   Prelude       numbers, byte strings, lists, maps as association lists, results, the monad of
--                 state and errors
--   Attestation   crates/nitro-attestation/src/lib.rs: Types, Payload (parse, decode_payload), Chain
--                 (verify, verify_chain), Expect (Verified::expect), Hashes (AttestationHashes)
--   Boot          runtime/src/boot.rs: Types (what boot reads and calls), Receipt (the documents),
--                 Machine (genesis, record_pair, boot)
--   Store         runtime/src/store/error.rs and backend/mod.rs (Types), backend/memory.rs (Memory)
--   Auth          runtime/src/auth/token.rs (Token) and challenge.rs (Challenge)
--   Serve         runtime/src/serve/pool.rs (Pool) and progress.rs (Progress)
--   Tasks         runtime/src/tasks.rs: Types, Queue (the operations of TaskQueue), Due (the next task)
--   Logs          runtime/src/guest_io/cloudwatch.rs: Chunks (put_chunks)
--   Zfs           runtime/src/zfs.rs: Types (what it calls), Tip (chain_tip), Anchor (Anchor::seal and
--                 decode_and_verify), Kernel (the kernel's notes), Admit (admit), Generation (the claims),
--                 Pool (publish, anchor_now; Pool.Open: open and create), Catalog (regions and the tenant
--                 catalog), Tenants (the slots of the tenant pools)
--   Keys          runtime/src/keys/ber.rs: Ber (to_der and transcode)
--   Notify        runtime/src/notify/device.rs: Devices (the operations of DeviceRegistry)
--   Stream        runtime/src/stream.rs: Sse (SseFramer)
-- The children of a module state its properties (Boot/Kept joins boot to the in-memory backend), and
-- Tests in each part, with Boot/StoreTests, Zfs/PoolTests and
-- Zfs/CatalogTests, runs it at concrete inputs.
--
-- How the code is read. A method under a mutex is one step on the state that the mutex guards, so
-- that concurrent callers are a list of calls in the order in which they take the lock. A clock that is
-- read is an argument. Code of other crates is a parameter: `Crypto` for COSE, CBOR, X.509 and ECDSA,
-- `Platform` for the bucket, the NSM, the key source, the pool and the encoders, `Host` for the bucket,
-- the clock, the commands and the cryptography of the pools, `sha256` and `etag`
-- where a store takes one, `Io` for what the disk and the anchor answer to the task queue and to the
-- device registry, `Codec` for base64, SHA-256 and hex in a stream. Nothing is
-- assumed of them but what a theorem names as a hypothesis. The bucket that boot reads may change
-- between any two calls.
--
-- Bounds. Numbers are unbounded where the program cannot come near their width, wrap at 2^64
-- and 2^32 in the counters of a stream, and stop at 2^64 - 1 where the task queue adds to a
-- time. The loop that evicts slots runs on fuel, one for each slot that the first sweep kept; each round
-- takes a slot away, so that it never ends for want of fuel. The two loops of chain_tip run on 65 rounds
-- each: the step of the first doubles, the interval of the second halves, within 64 bits. The loops of
-- the BER reader run on one round for each byte of their region, since a value takes a byte at least; its
-- depth is the program's own bound of 64. The SSE framer has one round for each byte of its buffer.
--
-- Not modelled: listing the bucket, the S3 client, dm-crypt and the paths of the pools, HTTP, TLS,
-- ACME, WebAssembly and the sending of push notifications, which are calls of libraries and devices; the
-- texts of errors and logs; the recovery of the task queue and its workers; the log forwarder; guest
-- settings; the streams but for the SSE framer; the scan of the device records at a start.
pub mod Prelude
pub mod Attestation
pub mod Auth
pub mod Boot
pub mod Keys
pub mod Logs
pub mod Notify
pub mod Serve
pub mod Store
pub mod Stream
pub mod Tasks
pub mod Zfs
