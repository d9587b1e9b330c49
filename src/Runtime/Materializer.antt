-- ===== src/Runtime/Materializer.antt =====
-- runtime/TupleMaterializer.h and TupleMaterializer.cpp.
--
-- Of a chunk the model keeps the number of bytes in front of `end_ptr`. The chunk that is being
-- filled is `current`; `full` are the chunks before it. A `char*` is a chunk and an offset.
use inkfuse.Base.{
  ℕ, zero, suc, ◌+◌, ◌*◌, ◌/◌, ◌≤◌, ◌<◌, ◌≡◌, refl, sym, ◌∙◌, ap, subst, inl, inr, Option, none,
  some, List, [], ◌∷◌, ◌++◌, arith, ltb, leb, if◌then◌else◌, length, length-append, get_elem?,
  get_elem?-none, get_elem?-some, Bool-cases,
}
use native.Mathlib.Nat.{add-div_right}
use inkfuse.Runtime.Run.{Run, ok, throws}

-- 16 kb
abbrev pub region_size : ℕ
region_size = 32 * 512

pub record Materializer : Type 0 where
  pub tuple_size : ℕ
  pub full : List ℕ
  pub current : ℕ

pub record Pointer : Type 0 where
  pub chunk : ℕ
  pub offset : ℕ

-- the constructor, with its first `allocNewChunk`
unfoldable pub new_materializer : ℕ → Run Materializer
new_materializer tuple_size =
    if ltb region_size tuple_size
    then throws
    else ok (record { tuple_size = tuple_size; full = []; current = 0 })

unfoldable pub alloc_new_chunk : Materializer → Materializer
alloc_new_chunk m = record m { full = m.full ++ m.current ∷ []; current = 0 }

-- the tuple at the end of the current chunk
unfoldable pub take_slot : Materializer → Pointer × Materializer
take_slot m = (
  record { chunk = length m.full; offset = m.current },
  record m { current = m.current + m.tuple_size },
)

unfoldable pub materialize : Materializer → Pointer × Materializer
unfolding alloc_new_chunk take_slot
materialize m =
    if leb region_size (m.current + m.tuple_size)
    then take_slot (alloc_new_chunk m)
    else take_slot m

-- the sum of `getNumTuples` over some chunks
unfoldable pub tuples_in : ℕ → List ℕ → ℕ
tuples_in tuple_size [] = 0
tuples_in tuple_size (occupied ∷ chunks) = occupied / tuple_size + tuples_in tuple_size chunks

abbrev pub chunks : Materializer → List ℕ
chunks m = m.full ++ m.current ∷ []

unfoldable pub get_num_tuples : Materializer → ℕ
get_num_tuples m = tuples_in m.tuple_size (chunks m)

-- `&mat.chunks[offset]`; an access outside of the deque, which is undefined, is `throws`
unfoldable pub chunk_at : Materializer → ℕ → Run (Option ℕ)
chunk_at m offset = elim (get_elem? (chunks m) offset) [ none ↦ throws | some c ↦ ok (some c) ]

-- A read handle is its atomic offset. Each call of `pullChunk` is one `fetch_add`, so that calls of
-- several threads are a sequence of calls. The result `ok none` is the null pointer.
unfoldable pub pull_chunk : Materializer → ℕ → Run (Option ℕ) × ℕ
unfolding chunk_at
pull_chunk m offset =
    (if leb (length (chunks m)) offset then ok none else chunk_at m offset, offset + 1)

-- What holds of every materializer. A tuple fits into a chunk, which the constructor checks.
pub record IsValid (m : Materializer) : Type 0 where
  pub fits : m.tuple_size ≤ region_size
  pub within : m.current ≤ region_size

-- The place of a byte when the chunks are laid out one behind the other.
abbrev pub position : Pointer → ℕ
position p = p.chunk * region_size + p.offset

abbrev pub used : Materializer → ℕ
used m = length m.full * region_size + m.current

new_materializer-IsValid :
    (n : ℕ) (m : Materializer) → new_materializer n ≡ ok m → IsValid m × (m.tuple_size ≡ n)
unfolding new_materializer
new_materializer-IsValid n m e = ground arith

-- One call: the slot lies in its chunk, behind all that was used before.
pub materialize_lem :
    (m : Materializer)
    → IsValid m
    → let (p, m') = materialize m in
      IsValid m'
      × (m'.tuple_size ≡ m.tuple_size)
      × (p.offset + m.tuple_size ≤ region_size)
      × (used m ≤ position p)
      × (position p + m.tuple_size ≡ used m')
unfolding materialize
materialize_lem m v = elim (Bool-cases (leb region_size (m.current + m.tuple_size))) [
  | inr room ↦ rw room (
    record { fits = v.fits; within = ground arith },
    refl,
    ground arith,
    omega arith,
    omega arith,
  )
  | inl tight ↦
      let more = length-append m.full (m.current ∷ []) in
      rw (tight, more)
        (
          record { fits = v.fits; within = omega (arith, v.fits) },
          refl,
          omega (arith, v.fits),
          omega (arith, v.within),
          omega arith,
        )
]

-- `n` calls of `materialize`, and the slots that they return
unfoldable pub materialize_all : ℕ → Materializer → List Pointer × Materializer
materialize_all zero m = ([], m)
materialize_all (suc n) m =
    let (p, m') = materialize m in let (ps, m'') = materialize_all n m' in (p ∷ ps, m'')

-- Each slot lies in one chunk, and each begins behind the end of the one before.
abbrev pub Apart : ℕ → ℕ → List Pointer → Type 0
Apart size from [] = Unit {0}
Apart size from (p ∷ ps) =
    (from ≤ position p) × (p.offset + size ≤ region_size) × Apart size (position p + size) ps

-- The slots of any number of calls of `materialize` lie inside their chunks and do not overlap, in
-- a materializer whose tuples fit into a chunk.
pub materialize_all-Apart :
    (n : ℕ) (m : Materializer) → IsValid m → Apart m.tuple_size (used m) (materialize_all n m).0
unfolding materialize_all
materialize_all-Apart zero m v = tt
materialize_all-Apart (suc n) m v =
    let (v', same, inside, behind, ends) = materialize_lem m v in
    let rest = materialize_all-Apart n (materialize m).1 v' in
    let slots = (materialize_all n (materialize m).1).0 in
    let sized = subst (λ k. Apart k (used (materialize m).1) slots) same rest in
    (behind, inside, subst (λ k. Apart m.tuple_size k slots) (sym ends) sized)

tuples_in-append :
    (n : ℕ) (xs ys : List ℕ) → tuples_in n (xs ++ ys) ≡ tuples_in n xs + tuples_in n ys
unfolding tuples_in
tuples_in-append n [] ys = omega arith
tuples_in-append n (x ∷ xs) ys = omega (arith, tuples_in-append n xs ys)

tuples_in-one : (n x : ℕ) → tuples_in n (x ∷ []) ≡ x / n
unfolding tuples_in
tuples_in-one n x = omega arith

div-add_self : (x n : ℕ) → 0 < n → (x + n) / n ≡ x / n + 1
div-add_self x n pos = omega (arith, add-div_right x pos)

take_slot-tuples :
    (m : Materializer) → 0 < m.tuple_size → get_num_tuples (take_slot m).1 ≡ get_num_tuples m + 1
unfolding get_num_tuples take_slot
take_slot-tuples m pos =
    rw (tuples_in-append m.tuple_size m.full ((m.current + m.tuple_size) ∷ [])) (
      omega (
        arith,
        tuples_in-append m.tuple_size m.full (m.current ∷ []),
        tuples_in-one m.tuple_size m.current,
        tuples_in-one m.tuple_size (m.current + m.tuple_size),
        div-add_self m.current m.tuple_size pos,
      ))

alloc_new_chunk-tuples : (m : Materializer) → get_num_tuples (alloc_new_chunk m) ≡ get_num_tuples m
unfolding get_num_tuples alloc_new_chunk
alloc_new_chunk-tuples m =
    rw (tuples_in-append m.tuple_size (chunks m) (0 ∷ []), tuples_in-one m.tuple_size 0)
      (omega arith)

materialize-tuples :
    (m : Materializer) → 0 < m.tuple_size → get_num_tuples (materialize m).1 ≡ get_num_tuples m + 1
unfolding materialize
materialize-tuples m pos = elim (Bool-cases (leb region_size (m.current + m.tuple_size))) [
  | inr room ↦ rw room (take_slot-tuples m pos)
  | inl tight ↦
      rw tight
        (take_slot-tuples (alloc_new_chunk m) pos ∙ ap (λ n. n + 1) (alloc_new_chunk-tuples m))
]

-- If tuples are not empty and fit into a chunk, `n` calls of `materialize` raise `getNumTuples` by
-- `n`.
materialize_all-tuples :
    (n : ℕ) (m : Materializer)
    → 0 < m.tuple_size
    → IsValid m
    → get_num_tuples (materialize_all n m).1 ≡ get_num_tuples m + n
unfolding materialize_all
materialize_all-tuples zero m pos v = omega arith
materialize_all-tuples (suc n) m pos v =
    let (v', same, _, _, _) = materialize_lem m v in
    omega
      (arith, materialize-tuples m pos, materialize_all-tuples n (materialize m).1 (rw same pos) v')

-- `n` calls of `pullChunk` on one handle
unfoldable pub pull_all : Materializer → ℕ → ℕ → List (Run (Option ℕ))
pull_all m zero offset = []
pull_all m (suc n) offset = let (r, next) = pull_chunk m offset in r ∷ pull_all m n next

pull_chunk_lem :
    (m : Materializer) (offset : ℕ) → (pull_chunk m offset).0 ≡ ok (get_elem? (chunks m) offset)
unfolding pull_chunk chunk_at
pull_chunk_lem m offset = elim (Bool-cases (leb (length (chunks m)) offset)) [
  | inl past ↦ rw (past, get_elem?-none (chunks m) offset (ground arith)) refl
  | inr more ↦
      let (c, e) = get_elem?-some (chunks m) offset (ground arith) in rw (more, chunk_at, e) refl
]

-- Of `n` calls of `pullChunk`, number `k` gets the chunk `k` behind the offset at which they
-- begin, or null if there is none. So no chunk is handed out twice, and none is left out, and no
-- call accesses the chunks out of their bounds.
pub pull_all-chunks :
    (m : Materializer) (n k offset : ℕ)
    → k < n
    → get_elem? (pull_all m n offset) k ≡ some (ok (get_elem? (chunks m) (offset + k)))
unfolding pull_all pull_chunk
pull_all-chunks m zero k offset l = elim l [ ]
pull_all-chunks m (suc n) zero offset l =
    let at_offset : offset + 0 ≡ offset = omega arith in
    rw at_offset (ap some (pull_chunk_lem m offset))
pull_all-chunks m (suc n) (suc k) offset l =
    let shift : offset + 1 + k ≡ offset + suc k = omega arith in
    rw (← shift) (pull_all-chunks m n k (offset + 1) (omega arith))
