-- ===== src/Zfs/Catalog/Valid.antt =====
-- The tenant catalog of runtime/src/zfs.rs: what `validate_catalog` accepts, and what a new region
-- leaves of it.
use mathlib.Core.Path.{subst}
use native.Mathlib.Decide.{dec_lt}
use enclave_runtime.Prelude.{
  ℕ, zero, suc, ◌+◌, ◌-◌, ◌≤◌, ◌<◌, ◌≡◌, ◌↔◌, refl, sym, inl, inr, Bool, true, false, not, ◌&&◌,
  Option, none, some, List, [], ◌∷◌, Bytes, arith, ltb, leb, bytes_eq, bytes_beq_iff, nat_eq, ◌==◌,
  ==_iff, and_left, and_right, leb→le, ltb→lt, Bool-cases,
}
use enclave_runtime.Prelude.Result.{ok, ensure-then}
use enclave_runtime.Zfs.Catalog.{
  Catalog, regions, pool_ids, contains_region, contains_id, find_free, free_region, validate_from,
  validate_catalog,
}

-- Each region and each pool id stands in one entry, the regions are those of tenants, and the entries
-- are of the known version.
abbrev pub IsValid : ℕ → Catalog → Type 0
IsValid max_pools [] = Unit
IsValid max_pools ((id, e) ∷ c) =
    (e.version ≡ 1)
    × (1 ≤ e.region)
    × (e.region < max_pools)
    × (contains_region e.region (regions c) ≡ false)
    × (contains_id e.pool_id (pool_ids c) ≡ false)
    × IsValid max_pools c

-- No region, and no id, of the catalog has been seen.
abbrev Unseen : List ℕ → List Bytes → Catalog → Type 0
Unseen seen ids [] = Unit
Unseen seen ids ((id, e) ∷ c) =
    (contains_region e.region seen ≡ false)
    × (contains_id e.pool_id ids ≡ false)
    × Unseen seen ids c

Unseen-cons :
    (r : ℕ) (i : Bytes) (seen : List ℕ) (ids : List Bytes) (c : Catalog)
    → Unseen (r ∷ seen) (i ∷ ids) c
    → Unseen seen ids c
      × (contains_region r (regions c) ≡ false)
      × (contains_id i (pool_ids c) ≡ false)
unfolding contains_region contains_id
Unseen-cons r i seen ids [] u = (tt, refl, refl)
Unseen-cons r i seen ids ((id, e) ∷ c) u =
    ground (arith, Unseen-cons r i seen ids c, bytes_beq_iff i e.pool_id, bytes_beq_iff e.pool_id i)

Unseen-grow :
    (r : ℕ) (i : Bytes) (seen : List ℕ) (ids : List Bytes) (c : Catalog)
    → Unseen seen ids c
    → contains_region r (regions c) ≡ false
    → contains_id i (pool_ids c) ≡ false
    → Unseen (r ∷ seen) (i ∷ ids) c
unfolding contains_region contains_id
Unseen-grow r i seen ids [] u nr ni = tt
Unseen-grow r i seen ids ((id, e) ∷ c) u nr ni =
    ground (arith, Unseen-grow r i seen ids c, bytes_beq_iff i e.pool_id, bytes_beq_iff e.pool_id i)

not-true : (b : Bool) → not b ≡ true → b ≡ false
not-true true h = sym h
not-true false h = refl

validate_from_sound :
    (max_pools : ℕ) (seen : List ℕ) (ids : List Bytes) (c : Catalog)
    → validate_from max_pools seen ids c ≡ ok tt
    → Unseen seen ids c × IsValid max_pools c
unfolding validate_from
validate_from_sound max_pools seen ids [] h = (tt, tt)
validate_from_sound max_pools seen ids ((id, e) ∷ c) h =
    let (version, h1) = ensure-then (e.version == 1) _ _ h in
    let (range, h2) = ensure-then (leb 1 e.region && ltb e.region max_pools) _ _ h1 in
    let (alone, h3) = ensure-then (not (contains_region e.region seen)) _ _ h2 in
    let (own, h4) = ensure-then (not (contains_id e.pool_id ids)) _ _ h3 in
    let (unseen, valid) = validate_from_sound max_pools (e.region ∷ seen) (e.pool_id ∷ ids) c h4 in
    let (rest, regions, ids) = Unseen-cons e.region e.pool_id seen ids c unseen in
    (
      (not-true _ alone, not-true _ own, rest),
      (
        (==_iff e.version 1).0 version,
        leb→le 1 e.region (and_left _ _ range),
        ltb→lt e.region max_pools (and_right _ _ range),
        regions,
        ids,
        valid,
      ),
    )

validate_from_complete :
    (max_pools : ℕ) (seen : List ℕ) (ids : List Bytes) (c : Catalog)
    → Unseen seen ids c
    → IsValid max_pools c
    → validate_from max_pools seen ids c ≡ ok tt
unfolding validate_from
validate_from_complete max_pools seen ids [] u v = refl
validate_from_complete max_pools seen ids ((id, e) ∷ c) (alone, own, u)
      (version, low, high, nr, ni, v) =
    let rest =
      validate_from_complete max_pools (e.region ∷ seen) (e.pool_id ∷ ids) c
        (Unseen-grow e.region e.pool_id seen ids c u nr ni) v in
    let one : (e.version == 1) ≡ true = (==_iff e.version 1).1 version in
    let range : (leb 1 e.region && ltb e.region max_pools) ≡ true = ground (arith, low, high) in
    rw (one, range, alone, own, rest) refl

all-Unseen : (c : Catalog) → Unseen [] [] c
unfolding contains_region contains_id
all-Unseen [] = tt
all-Unseen ((id, e) ∷ c) = (refl, refl, all-Unseen c)

-- `validate_catalog` accepts exactly the catalogs in which every entry has version 1 and a region from
-- 1 up to the cap, and no two entries share a region or a pool id.
pub validate_catalog_iff :
    (max_pools : ℕ) (c : Catalog) → (validate_catalog max_pools c ≡ ok tt) ↔ IsValid max_pools c
unfolding validate_catalog
validate_catalog_iff max_pools c = (
  λ h. (validate_from_sound max_pools [] [] c h).1,
  validate_from_complete max_pools [] [] c (all-Unseen c),
)

-- What the search for a region finds, or that none is left.
abbrev pub Found : ℕ → ℕ → List ℕ → Option ℕ → Type 0
Found n r taken (some x) = (r ≤ x) × (x < r + n) × (contains_region x taken ≡ false)
Found n r taken none = (x : ℕ) → r ≤ x → x < r + n → contains_region x taken ≡ true

find_free-Found : (n r : ℕ) (taken : List ℕ) → Found n r taken (find_free n r taken)
unfolding find_free
find_free-Found zero r taken = λ x low high. absurd (omega (arith, low, high))
find_free-Found (suc n) r taken = elim (Bool-cases (contains_region r taken)) [
  | inr f ↦ rw (f, find_free, Found) (omega arith, omega arith, f)
  | inl t ↦
      rw (t, find_free) (later (find_free n (r + 1) taken) (find_free-Found n (r + 1) taken) t)
]
  where
    later :
        (o : Option ℕ)
        → Found n (r + 1) taken o
        → contains_region r taken ≡ true
        → Found (suc n) r taken o
    later none all t = λ x low high. elim (dec_lt r x) [
      | yes lt ↦ all x (omega (arith, lt)) (omega (arith, high))
      | no ge ↦ subst (λ y. contains_region y taken ≡ true) (omega (arith, low, ge)) t
    ]
    later (some x) (low, high, free) t = (omega (arith, low), omega (arith, high), free)

-- `free_region` finds a tenant's region that no entry has, and it finds none only when every region
-- from 1 up to the cap is taken.
pub free_region-Found :
    (max_pools : ℕ) (c : Catalog) → Found (max_pools - 1) 1 (regions c) (free_region max_pools c)
unfolding free_region
free_region-Found max_pools c = find_free-Found (max_pools - 1) 1 (regions c)
