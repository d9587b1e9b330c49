-- ===== src/Operators/Aggregates.antt =====
-- algebra/AggFunctionRegistry.cpp and Aggregation.cpp: which granules of state an aggregation
-- keeps, and where in a row they stand.
--
-- Granules are kept in the order of `std::set` with `std::greater`, by size, by the address of the
-- IU, and by name; the address is the IU's `id`. `agg_state_count` comes before every name of a sum,
-- and all sums over one IU have one name.
pub mod Layout
pub mod Ends
use inkfuse.Base.{
  ℕ, zero, suc, ◌+◌, ◌-◌, Bool, true, false, not, ◌&&◌, ◌||◌, List, [], ◌∷◌, ◌++◌, ltb, ◌==◌,
  if◌then◌else◌,
}
use inkfuse.Runtime.Run.{Run, ok, throws, diverges, ◌>>=◌}
use inkfuse.Operators.Types.{IrType, num_bytes, Iu, signed_int, float}

pub data Opcode : Type 0 where
  min max sum count avg median : Opcode

-- `out` is the IU that `plan` makes for the result.
pub record Description : Type 0 where
  pub agg_iu : Iu
  pub code : Opcode
  pub distinct : Bool
  pub out : ℕ

pub data AggState : Type 0 where
  agg_state_count : AggState
  agg_state_sum : IrType → AggState

pub data AggCompute : Type 0 where
  agg_compute_unpack agg_compute_avg : IrType → AggCompute

pub record RegistryEntry : Type 0 where
  pub result_type : IrType
  pub granules : List AggState
  pub agg_reader : AggCompute

unfoldable pub get_state_size : AggState → ℕ
unfolding num_bytes
get_state_size agg_state_count = 8
get_state_size (agg_state_sum type) = num_bytes type

unfoldable pub compute_as_unpack : IrType → List AggState → RegistryEntry
compute_as_unpack agg_state granules = record {
  result_type = agg_state;
  granules = granules;
  agg_reader = agg_compute_unpack agg_state;
}

unfoldable pub resolve_count : RegistryEntry
unfolding compute_as_unpack
resolve_count = compute_as_unpack (signed_int 8) (agg_state_count ∷ [])

unfoldable pub resolve_sum : Iu → RegistryEntry
unfolding compute_as_unpack
resolve_sum agg_iu = compute_as_unpack agg_iu.type (agg_state_sum agg_iu.type ∷ [])

unfoldable pub resolve_avg : Iu → RegistryEntry
resolve_avg agg_iu = record {
  result_type = float 8;
  granules = agg_state_sum agg_iu.type ∷ agg_state_count ∷ [];
  agg_reader = agg_compute_avg agg_iu.type;
}

unfoldable pub resolve : Opcode → Iu → Run RegistryEntry
unfolding resolve_count resolve_sum resolve_avg
resolve count agg_iu = ok resolve_count
resolve sum agg_iu = ok (resolve_sum agg_iu)
resolve avg agg_iu = ok (resolve_avg agg_iu)
resolve _ agg_iu = throws

unfoldable pub lookup_subops : Description → Run RegistryEntry
unfolding resolve
lookup_subops d = if d.distinct then throws else resolve d.code d.agg_iu

pub record Granule : Type 0 where
  pub iu : Iu
  pub state : AggState

abbrev pub size_of : Granule → ℕ
unfolding get_state_size
size_of g = get_state_size g.state

-- the place of a state's name among the names
unfoldable pub rank : AggState → ℕ
rank agg_state_count = 0
rank (agg_state_sum type) = 1

-- the tuple `g` is greater than `h`
unfoldable pub greater : Granule → Granule → Bool
unfolding get_state_size rank
greater g h =
    ltb (size_of h) (size_of g)
    || size_of h == size_of g
      && (ltb h.iu.id g.iu.id || h.iu.id == g.iu.id && ltb (rank h.state) (rank g.state))

-- `insert` of the set
unfoldable pub insert_granule : Granule → List Granule → List Granule
unfolding greater
insert_granule g [] = g ∷ []
insert_granule g (h ∷ hs) =
    if greater g h then g ∷ h ∷ hs else if greater h g then h ∷ insert_granule g hs else h ∷ hs

unfoldable pub insert_granules : Iu → List AggState → List Granule → List Granule
unfolding insert_granule
insert_granules iu [] to_compute = to_compute
insert_granules iu (s ∷ ss) to_compute =
    insert_granules iu ss (insert_granule (record { iu = iu; state = s }) to_compute)

-- the loop over the aggregate functions: the entries, and the set
unfoldable pub collect :
    List Description → List Granule → Run (List (Description × RegistryEntry) × List Granule)
unfolding lookup_subops insert_granules
collect [] to_compute = ok ([], to_compute)
collect (d ∷ ds) to_compute = do
  entry ← lookup_subops d
  (functions, all) ← collect ds (insert_granules d.agg_iu entry.granules to_compute)
  ok ((d, entry) ∷ functions, all)

-- the state's size at the end of the set
unfoldable pub last_size : List Granule → Run ℕ
unfolding get_state_size
last_size [] = throws
last_size (g ∷ []) = ok (size_of g)
last_size (g ∷ h ∷ hs) = last_size (h ∷ hs)

-- the `while` loop that looks for the first aligned offset behind the key, with fuel for the rounds
unfoldable pub align : ℕ → ℕ → ℕ → ℕ → Run ℕ
align zero key_size step payload_offset = diverges
align (suc fuel) key_size step payload_offset =
    let rest = align fuel key_size step (payload_offset + step) in
    if ltb payload_offset key_size then rest else ok payload_offset

-- `std::accumulate` of the sizes
unfoldable pub total_size : List Granule → ℕ
unfolding get_state_size
total_size [] = 0
total_size (g ∷ gs) = size_of g + total_size gs

-- `find` in the set, with the sum of the sizes of the granules in front
unfoldable pub granule_offset : Granule → List Granule → ℕ → ℕ
unfolding greater get_state_size
granule_offset g [] offset = offset
granule_offset g (h ∷ hs) offset =
    if not (greater g h) && not (greater h g)
    then offset
    else granule_offset g hs (offset + size_of h)

unfoldable pub granule_offsets : Iu → List AggState → List Granule → ℕ → List ℕ
unfolding granule_offset
granule_offsets iu [] to_compute payload_offset = []
granule_offsets iu (s ∷ ss) to_compute payload_offset =
    granule_offset (record { iu = iu; state = s }) to_compute payload_offset
    ∷ granule_offsets iu ss to_compute payload_offset

-- the loop over the granules in `decay`: each with the offset at which its aggregator works
unfoldable pub aggregators : List Granule → ℕ → List (Granule × ℕ)
unfolding get_state_size
aggregators [] curr_offset = []
aggregators (g ∷ gs) curr_offset = (g, curr_offset) ∷ aggregators gs (curr_offset + size_of g)

pub record PlannedAggCompute : Type 0 where
  pub out : Iu
  pub compute : AggCompute
  pub granule_offsets : List ℕ

unfoldable pub plan_functions :
    List (Description × RegistryEntry) → List Granule → ℕ → List PlannedAggCompute
unfolding granule_offsets
plan_functions [] to_compute payload_offset = []
plan_functions ((d, entry) ∷ functions) to_compute payload_offset =
    record {
      out = record { id = d.out; type = entry.result_type };
      compute = entry.agg_reader;
      granule_offsets = granule_offsets d.agg_iu entry.granules to_compute payload_offset;
    }
    ∷ plan_functions functions to_compute payload_offset

pub record Plan : Type 0 where
  pub granules : List Granule
  pub compute : List PlannedAggCompute
  pub payload_offset : ℕ
  pub payload_size : ℕ

-- `plan`, from the size of the key on
unfoldable pub plan : ℕ → List Description → Run Plan
unfolding collect last_size align total_size plan_functions
plan key_size description = do
  (functions, to_compute) ← collect description []
  step ← last_size to_compute
  aligned ← align (key_size + 1) key_size step 0
  let payload_offset = aligned - key_size
  ok (record {
    granules = to_compute;
    compute = plan_functions functions to_compute payload_offset;
    payload_offset = payload_offset;
    payload_size = payload_offset + total_size to_compute;
  })
