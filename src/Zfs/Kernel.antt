-- ===== src/Zfs/Kernel.antt =====
-- `loaded_txg`, `witness` and `synced_txg` of runtime/src/zfs.rs: what the kernel's notes say of a
-- pool.
use enclave_runtime.Prelude.{
  ℕ, zero, suc, max, Bool, true, false, ◌&&◌, ◌||◌, Option, none, some, List, [], ◌∷◌, ◌++◌, Bytes,
  ascii, ltb, if◌then◌else◌, bytes_eq, ◌==◌,
}
use enclave_runtime.Prelude.Exec.{lift_option, ◌>>=◌}
use enclave_runtime.Prelude.Text.{lines, words, trim, strip_prefix, split_once, parse_u64}
use enclave_runtime.Zfs.Types.{Host, Run, call, command, bad_guid, file_failed, nothing_written}

-- Option's `?`
abbrev pub and_then {ℓ κ} : {A : Type ℓ} {B : Type κ} → Option A → (A → Option B) → Option B
and_then none f = none
and_then (some a) f = f a

-- `using` and `loaded` of `loaded_txg`.
pub record Notes : Type 0 where
  pub using : Option ℕ
  pub loaded : Option ℕ

-- The note of a line on the load of the pool, if it is one.
abbrev pub note_of : Bytes → Bytes → Option Bytes
note_of tag line = and_then (split_once tag line) (λ (before, rest).
    and_then (split_once (ascii "): ") rest) (λ (config, note). some (trim note)))

abbrev pub starts_with : Bytes → Bytes → Bool
starts_with p s = elim (strip_prefix p s) [ none ↦ false | some rest ↦ true ]

unfoldable pub take_note : Bytes → Notes → Notes
take_note note n = elim (strip_prefix (ascii "using uberblock with txg=") note) [
  | some txg ↦ record n { using = parse_u64 txg }
  | none ↦
      if note == ascii "LOADED"
      then record n { loaded = n.using }
      else if (note == ascii "LOADING")
          || ((note == ascii "UNLOADING") || starts_with (ascii "FAILED") note)
      then record { using = none; loaded = none }
      else n
]

unfoldable pub read_notes : Bytes → List Bytes → Notes → Notes
unfolding take_note
read_notes tag [] n = n
read_notes tag (line ∷ rest) n =
    read_notes tag rest (elim (note_of tag line) [ none ↦ n | some note ↦ take_note note n ])

unfoldable pub loaded_txg : Bytes → Bytes → Option ℕ
unfolding read_notes
loaded_txg dbgmsg pool =
    let tag = ascii "spa_load(" ++ (pool ++ ascii ", config ") in
    (read_notes tag (lines dbgmsg) (record { using = none; loaded = none })).loaded

-- The lines of the history from its header on.
unfoldable pub from_header : List Bytes → List Bytes
from_header [] = []
from_header (line ∷ rest) =
    let later = from_header rest in if starts_with (ascii "txg") line then line ∷ rest else later

-- Iterator::position
unfoldable pub column : Bytes → List Bytes → Option ℕ
column name [] = none
column name (c ∷ cols) =
    let later = column name cols in
    if c == name then some 0 else elim later [ none ↦ none | some i ↦ some (suc i) ]

-- Vec::get
abbrev pub get_elem? : List Bytes → ℕ → Option Bytes
get_elem? [] i = none
get_elem? (x ∷ xs) zero = some x
get_elem? (x ∷ xs) (suc i) = get_elem? xs i

-- What the filter of `witness` makes of one row.
unfoldable pub committed : ℕ → ℕ → ℕ → Bytes → Option ℕ
committed txg state written line =
    let f = words line in
    and_then (get_elem? f written) (λ w. and_then (parse_u64 w) (λ wrote.
      and_then (get_elem? f state) (λ st.
        if (st == ascii "C") && ltb 0 wrote then and_then (get_elem? f txg) parse_u64 else none)))

-- The largest that a filter leaves.
unfoldable pub newest : (Bytes → Option ℕ) → List Bytes → Option ℕ
newest f [] = none
newest f (l ∷ ls) = elim (f l) [
  | none ↦ newest f ls
  | some t ↦ elim (newest f ls) [ none ↦ some t | some u ↦ some (max t u) ]
]

unfoldable pub witness : Bytes → Option ℕ
unfolding from_header column committed newest
witness kstat = elim (from_header (lines kstat)) [
  | [] ↦ none
  | header ∷ rows ↦
      let cols = words header in
      and_then (column (ascii "txg") cols) (λ txg. and_then (column (ascii "state") cols) (λ state.
        and_then (column (ascii "nwritten") cols)
          (λ written. newest (committed txg state written) rows)))
]

unfoldable pub synced_txg : (h : Host) → Bytes → Run h ℕ
unfolding witness
synced_txg h pool = do
  kstat ← call h (h.read_file (ascii "/proc/spl/kstat/zfs/" ++ (pool ++ ascii "/txgs"))) file_failed
  lift_option (λ _. witness kstat) nothing_written

-- pool_guid
unfoldable pub pool_guid : (h : Host) → Bytes → Run h ℕ
pool_guid h pool = do
  out ←
      command h (ascii "zpool")
        (ascii "get" ∷ ascii "-Hp" ∷ ascii "-o" ∷ ascii "value" ∷ ascii "guid" ∷ pool ∷ [])
  lift_option (λ _. parse_u64 (trim out)) bad_guid
