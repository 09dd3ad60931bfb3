-- ===== src/Notify/Devices/Lists.antt =====
-- The lists of runtime/src/notify/device.rs: sorting, trimming and forgetting keep every device of the
-- memory in its directory.
use enclave_runtime.Prelude.{
  ℕ, ◌+◌, ◌≤◌, ◌≡◌, refl, ◌∙◌, inl, inr, Bool, true, false, ◌&&◌, ◌||◌, List, [], ◌∷◌, ◌++◌, Bytes,
  arith, ltb, length, any, bytes_eq, bytes_beq_iff, nat_eq, ◌==◌, Bool-cases,
}
use enclave_runtime.Notify.Devices.{
  StoredDevice, place, sort, has_token, without, publish, Io, trim_list, is_before,
}

-- A record of the device is in the directory.
abbrev pub holds : StoredDevice → List StoredDevice → Bool
holds d dir = any (λ e. (e.token == d.token) && (e.created_ms == d.created_ms)) dir

-- Every device of the list has its record, and no token stands twice.
abbrev pub Backed : List StoredDevice → List StoredDevice → Type 0
Backed dir [] = Unit
Backed dir (d ∷ ds) = (holds d dir ≡ true) × (has_token d.token ds ≡ false) × Backed dir ds

holds-without :
    (token : Bytes) (d : StoredDevice) (dir : List StoredDevice)
    → (d.token == token) ≡ false
    → holds d dir ≡ true
    → holds d (without token dir) ≡ true
holds-without token d [] other h = h
holds-without token d (e ∷ dir) other h = ground (
  arith,
  holds-without token d dir other,
  bytes_beq_iff e.token token,
  bytes_beq_iff e.token d.token,
  bytes_beq_iff d.token token,
)

-- Removing a record leaves the devices of the other tokens.
Backed-without_dir :
    (token : Bytes) (dir ds : List StoredDevice)
    → has_token token ds ≡ false
    → Backed dir ds
    → Backed (without token dir) ds
Backed-without_dir token dir [] n b = tt
Backed-without_dir token dir (d ∷ ds) n b =
    ground (arith, holds-without token d dir, Backed-without_dir token dir ds)

has_token-without :
    (t token : Bytes) (ds : List StoredDevice)
    → has_token t ds ≡ false
    → has_token t (without token ds) ≡ false
has_token-without t token [] n = refl
has_token-without t token (d ∷ ds) n = ground (arith, has_token-without t token ds)

has_token_self :
    (token : Bytes) (ds : List StoredDevice) → has_token token (without token ds) ≡ false
has_token_self token [] = refl
has_token_self token (d ∷ ds) = ground (arith, has_token_self token ds)

Backed-without :
    (token : Bytes) (dir ds : List StoredDevice) → Backed dir ds → Backed dir (without token ds)
Backed-without token dir [] b = tt
Backed-without token dir (d ∷ ds) b =
    ground (arith, Backed-without token dir ds, has_token-without d.token token ds)

pub without-Backed :
    (token : Bytes) (dir ds : List StoredDevice)
    → Backed dir ds
    → Backed (without token dir) (without token ds)
without-Backed token dir ds b =
    Backed-without_dir token dir (without token ds) (has_token_self token ds)
      (Backed-without token dir ds b)

has_token-place :
    (t : Bytes) (d : StoredDevice) (ds : List StoredDevice)
    → has_token t (place d ds) ≡ ((d.token == t) || has_token t ds)
unfolding place
has_token-place t d [] = refl
has_token-place t d (e ∷ ds) = ground (arith, has_token-place t d ds)

place-Backed :
    (dir : List StoredDevice) (d : StoredDevice) (ds : List StoredDevice)
    → Backed dir (d ∷ ds)
    → Backed dir (place d ds)
unfolding place
place-Backed dir d [] b = b
place-Backed dir d (e ∷ ds) b = elim (Bool-cases (is_before d e)) [
  | inl t ↦ rw (t, place) b
  | inr f ↦
      rw (f, place)
        (ground (
          arith,
          place-Backed dir d ds,
          has_token-place e.token d ds,
          bytes_beq_iff d.token e.token,
          bytes_beq_iff e.token d.token,
        ))
]

has_token-sort : (t : Bytes) (ds : List StoredDevice) → has_token t (sort ds) ≡ has_token t ds
unfolding sort
has_token-sort t [] = refl
has_token-sort t (d ∷ ds) = ground (arith, has_token-place t d (sort ds), has_token-sort t ds)

sort-Backed : (dir ds : List StoredDevice) → Backed dir ds → Backed dir (sort ds)
unfolding sort
sort-Backed dir [] b = tt
sort-Backed dir (d ∷ ds) (h, n, b) =
    place-Backed dir d (sort ds) (h, has_token-sort d.token ds ∙ n, sort-Backed dir ds b)

length-place : (d : StoredDevice) (ds : List StoredDevice) → length (place d ds) ≡ length ds + 1
unfolding place
length-place d [] = omega arith
length-place d (e ∷ ds) = ground (arith, length-place d ds)

pub length-sort : (ds : List StoredDevice) → length (sort ds) ≡ length ds
unfolding sort
length-sort [] = refl
length-sort (d ∷ ds) = omega (arith, length-place d (sort ds), length-sort ds)

holds-publish_self : (d : StoredDevice) (dir : List StoredDevice) → holds d (publish d dir) ≡ true
holds-publish_self d dir = ground (arith, bytes_beq_iff d.token d.token)

Backed-publish :
    (d : StoredDevice) (dir ds : List StoredDevice)
    → has_token d.token ds ≡ false
    → Backed dir ds
    → Backed (publish d dir) ds
Backed-publish d dir [] n b = tt
Backed-publish d dir (e ∷ ds) n b =
    ground (arith, holds-without d.token e dir, Backed-publish d dir ds)

has_token-last :
    (t : Bytes) (d : StoredDevice) (ds : List StoredDevice)
    → has_token t (ds ++ (d ∷ [])) ≡ (has_token t ds || (d.token == t))
has_token-last t d [] = ground arith
has_token-last t d (e ∷ ds) = ground (arith, has_token-last t d ds)

Backed-last :
    (d : StoredDevice) (dir ds : List StoredDevice)
    → holds d dir ≡ true
    → has_token d.token ds ≡ false
    → Backed dir ds
    → Backed dir (ds ++ (d ∷ []))
Backed-last d dir [] h n b = (h, refl, tt)
Backed-last d dir (e ∷ ds) h n b = ground (
  arith,
  Backed-last d dir ds h,
  has_token-last e.token d ds,
  bytes_beq_iff d.token e.token,
  bytes_beq_iff e.token d.token,
)

-- A new device at the end of the list, published first and then sorted in.
pub enrolled-Backed :
    (d : StoredDevice) (dir ds : List StoredDevice)
    → has_token d.token ds ≡ false
    → Backed dir ds
    → Backed (publish d dir) (sort (ds ++ (d ∷ [])))
enrolled-Backed d dir ds n b =
    sort-Backed (publish d dir) (ds ++ (d ∷ []))
      (Backed-last d (publish d dir) ds (holds-publish_self d dir) n (Backed-publish d dir ds n b))

-- Trimming leaves the memory backed, whether or not a removal fails, and within the limit if it was at
-- most one over it.
pub trim_list-Backed :
    (per_tenant : ℕ) (io : Io) (ds dir : List StoredDevice)
    → Backed dir ds
    → (let t = trim_list per_tenant io ds dir in Backed t.dir t.list)
unfolding trim_list
trim_list-Backed per_tenant io [] dir b = tt
trim_list-Backed per_tenant io (d ∷ ds) dir b =
    elim (Bool-cases (ltb per_tenant (length (d ∷ ds)))) [
      | inr f ↦ rw (f, trim_list) b
      | inl t ↦ elim (Bool-cases (io.removed d.token)) [
        | inr g ↦ rw (t, trim_list, g) b.2
        | inl s ↦
            rw (t, trim_list, s)
              (trim_list-Backed per_tenant io ds (without d.token dir)
                (Backed-without_dir d.token dir ds b.1 b.2))
      ]
    ]

pub length-trim_list :
    (per_tenant : ℕ) (io : Io) (ds dir : List StoredDevice)
    → length ds ≤ per_tenant + 1
    → length (trim_list per_tenant io ds dir).list ≤ per_tenant
unfolding trim_list
length-trim_list per_tenant io [] dir le = omega arith
length-trim_list per_tenant io (d ∷ ds) dir le =
    elim (Bool-cases (ltb per_tenant (length (d ∷ ds)))) [
      | inr f ↦ rw (f, trim_list) (ground (arith, f))
      | inl t ↦ elim (Bool-cases (io.removed d.token)) [
        | inr g ↦ rw (t, trim_list, g) (omega (arith, le))
        | inl s ↦
            rw (t, trim_list, s)
              (length-trim_list per_tenant io ds (without d.token dir) (omega (arith, le)))
      ]
    ]
