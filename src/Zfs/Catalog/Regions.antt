-- ===== src/Zfs/Catalog/Regions.antt =====
-- The regions of runtime/src/zfs.rs: they lie on the disk and apart from each other.
use native.Mathlib.Nat.{mul-le-mul_right, div-mul-le_self}
use native.Mathlib.Numerals.{unary_clauses}
use enclave_runtime.Prelude.{
  ℕ, ◌+◌, ◌*◌, ◌/◌, ◌^◌, ◌≤◌, ◌<◌, max, ◌≡◌, refl, true, some, arith, ltb, leb, nat_eq,
}
use enclave_runtime.Zfs.Catalog.{checked, region_bounds, region_count}

region_bounds_at :
    (i n disk off len : ℕ)
    → region_bounds i n disk ≡ some (off, len)
    → (off ≡ i * n) × (len ≡ n) × (off + n ≤ disk)
unfolding region_bounds checked
region_bounds_at i n disk off len e = ground arith

-- Two regions of a disk lie on it, and the one with the smaller index ends before the other begins.
pub region_bounds_apart :
    (i j n disk off len off' len' : ℕ)
    → i < j
    → region_bounds i n disk ≡ some (off, len)
    → region_bounds j n disk ≡ some (off', len')
    → (off + len ≤ off') × (off' + len' ≤ disk)
region_bounds_apart i j n disk off len off' len' lt e e' =
    let (at_i, long, in_i) = region_bounds_at i n disk off len e in
    let (at_j, long', in_j) = region_bounds_at j n disk off' len' e' in
    let scaled : (i + 1) * n ≤ j * n = mul-le-mul_right n (omega (arith, lt)) in
    let split : (i + 1) * n ≡ i * n + n = simp (unary_clauses) (omega arith) in
    (omega (arith, at_i, at_j, long, scaled, split), omega (arith, long', in_j))

-- Every pool below the cap has a region, where the cap counts the whole regions of the disk.
pub region_bounds-count :
    (i n disk : ℕ)
    → 1 ≤ n
    → disk < 2 ^ 64
    → i < region_count n disk
    → region_bounds i n disk ≡ some (i * n, n)
unfolding region_bounds checked region_count
region_bounds-count i n disk big fits lt =
    let same : max n 1 ≡ n = omega (arith, big) in
    let under : i < disk / n = rw same at lt in
    let scaled : (i + 1) * n ≤ disk / n * n = mul-le-mul_right n (omega (arith, under)) in
    let split : (i + 1) * n ≡ i * n + n = simp (unary_clauses) (omega arith) in
    let whole : disk / n * n ≤ disk = div-mul-le_self disk n in
    let low : ltb (i * n) (2 ^ 64) ≡ true = ground (arith, scaled, split, whole, fits) in
    let top : ltb (i * n + n) (2 ^ 64) ≡ true = ground (arith, scaled, split, whole, fits) in
    let inside : leb (i * n + n) disk ≡ true = ground (arith, scaled, split, whole) in
    rw (low, region_bounds, checked, top, inside) refl
