-- ===== src/Runtime/Memory.antt =====
-- runtime/MemoryRuntime.h and MemoryRuntime.cpp: the bump allocator of a worker thread.
--
-- The regions are counted, and a `void*` is a region and an index into its array of 8-byte slots.
use inkfuse.Base.{
  ℕ, ◌+◌, ◌-◌, ◌*◌, ◌/◌, ◌≤◌, ◌<◌, ◌≡◌, ◌⊎◌, ◌||◌, List, [], ◌∷◌, arith, ltb, ◌==◌, if◌then◌else◌,
  Bool-cases, inl, inr,
}

abbrev pub region_array_size : ℕ
region_array_size = 512

abbrev pub region_size : ℕ
region_size = 8 * region_array_size

-- `region_offset` counts slots in the last region
pub record Region : Type 0 where
  pub regions : ℕ
  pub region_offset : ℕ

unfoldable pub new_region : Region
new_region = record { regions = 0; region_offset = 0 }

-- 8-byte slots for `size` bytes, rounded up
unfoldable pub slots_for : ℕ → ℕ
slots_for size = (size + 8 - 1) / 8

pub record Address : Type 0 where
  pub region : ℕ
  pub slot : ℕ

unfoldable pub bump : Region → ℕ → Address × Region
bump r slots = (
  record { region = r.regions - 1; slot = r.region_offset },
  record r { region_offset = r.region_offset + slots },
)

unfoldable pub alloc : Region → ℕ → Address × Region
unfolding slots_for bump
alloc r size =
    if r.regions == 0 || ltb region_array_size (r.region_offset + slots_for size)
    then bump (record { regions = r.regions + 1; region_offset = 0 }) (slots_for size)
    else bump r (slots_for size)

-- The slots in use lie inside the last region, and without a region none is in use.
abbrev pub IsValid : Region → Type 0
IsValid r = (r.region_offset ≤ region_array_size) × ((1 ≤ r.regions) ⊎ (r.region_offset ≡ 0))

-- The place of a slot when the regions are laid out one behind the other.
abbrev pub position : Address → ℕ
position a = a.region * region_array_size + a.slot

abbrev pub used : Region → ℕ
used r = (r.regions - 1) * region_array_size + r.region_offset

-- One allocation of fewer bytes than a region has: the returned bytes lie inside one region,
-- behind everything that was used before, and there are enough of them.
pub alloc_lem :
    (r : Region) (size : ℕ)
    → IsValid r
    → size < region_size
    → let (a, r') = alloc r size in
      IsValid r'
      × (a.region < r'.regions)
      × (8 * a.slot + size ≤ region_size)
      × (used r ≤ position a)
      × (8 * position a + size ≤ 8 * used r')
unfolding alloc
alloc_lem r size v l =
    elim (Bool-cases (r.regions == 0 || ltb region_array_size (r.region_offset + slots_for size))) [
      | inr room ↦
          rw room (
            (ground arith, inl (ground arith)),
            ground arith,
            ground arith,
            omega arith,
            omega arith,
          )
      | inl tight ↦
          rw tight
            ((omega arith, inl (omega arith)), omega arith, omega arith, omega arith, omega arith)
    ]

-- the addresses of a sequence of allocations
unfoldable pub alloc_all : Region → List ℕ → List Address
alloc_all r [] = []
alloc_all r (size ∷ sizes) = let (a, r') = alloc r size in a ∷ alloc_all r' sizes

abbrev pub AllSmall : List ℕ → Type 0
AllSmall [] = Unit {0}
AllSmall (size ∷ sizes) = (size < region_size) × AllSmall sizes

-- Each allocation, in bytes, lies in one region, and the next ones begin behind it.
abbrev pub Apart : ℕ → List ℕ → List Address → Type 0
Apart from (size ∷ sizes) (a ∷ as') =
    (from ≤ 8 * position a)
    × (8 * a.slot + size ≤ region_size)
    × Apart (8 * position a + size) sizes as'
Apart from [] [] = Unit {0}
Apart from [] (a ∷ as') = ⊥
Apart from (size ∷ sizes) [] = ⊥

Apart-mono :
    (from from' : ℕ) (sizes : List ℕ) (as' : List Address)
    → from' ≤ from
    → Apart from sizes as'
    → Apart from' sizes as'
Apart-mono from from' [] [] l h = tt
Apart-mono from from' [] (a ∷ as') l h = h
Apart-mono from from' (size ∷ sizes) [] l h = h
Apart-mono from from' (size ∷ sizes) (a ∷ as') l h = (omega arith, h.1, h.2)

-- Allocations of any sizes below that of a region stay inside regions, begin behind what was used
-- before, and never overlap.
pub alloc_all-Apart :
    (r : Region) (sizes : List ℕ)
    → IsValid r
    → AllSmall sizes
    → Apart (8 * used r) sizes (alloc_all r sizes)
unfolding alloc_all
alloc_all-Apart r [] v small = tt
alloc_all-Apart r (size ∷ sizes) v small =
    let (v', _, inside, behind, ends) = alloc_lem r size v small.0 in
    let rest = alloc_all-Apart (alloc r size).1 sizes v' small.1 in
    (omega arith, inside, Apart-mono _ _ sizes _ ends rest)
