-- ===== src/Algebra/Repipe.antt =====
-- algebra/Pipeline.cpp: `repipe`, `repipeAll` and `repipeRequired`.
--
-- A set of IUs is a list without repetitions, iterated in the order of insertion; the source leaves
-- the order open. Assertions are left out, and `none` is a lookup that fails. The objects that
-- `repipe` creates have the pointers `new_id 0`, `new_id 1`, …, and the driver produces `driver_iu`.
pub mod Sources
pub mod Inputs
pub mod Outputs
use inkfuse.Base.{
  ℕ, zero, suc, ◌+◌, ◌-◌, Bool, true, false, not, ◌&&◌, ◌||◌, Option, none, some, List, [], ◌∷◌,
  ◌++◌, ◌==◌, if◌then◌else◌, length, take, drop, get_elem?,
}
use mathlib.Core.Option
use inkfuse.Algebra.{
  RofStrategy, default, Subop, Pipeline, new_pipeline, get_consumers, get_producers, attach_all,
}

infixl 5 ◌>>=◌
abbrev ◌>>=◌ {ℓ κ} : {A : Type ℓ} {B : Type κ} → Option A → (A → Option B) → Option B
none >>= f = none
some a >>= f = f a

unfoldable pub occurs : ℕ → List ℕ → Bool
occurs x [] = false
occurs x (y ∷ ys) = y == x || occurs x ys

-- `set.insert(x)`
unfoldable pub insert_iu : ℕ → List ℕ → List ℕ
unfolding occurs
insert_iu x xs = if occurs x xs then xs else xs ++ x ∷ []

-- the suboperators `[start, end[`
unfoldable pub range : Pipeline → ℕ → ℕ → List Subop
range p start end = take (end - start) (drop start p.suboperators)

unfoldable pub find_subop : ℕ → List Subop → Option Subop
find_subop id [] = none
find_subop id (s ∷ ss) = if s.id == id then some s else find_subop id ss

-- the source or the target of a strong link, which is the first edge
unfoldable pub strong_end : Pipeline → List ℕ → Option Subop
unfolding find_subop
strong_end p [] = none
strong_end p (id ∷ ids) = find_subop id p.suboperators

-- the inner loop over the source IUs of a suboperator
unfoldable pub read_ius : List ℕ → List ℕ → List ℕ → List ℕ
unfolding occurs
read_ius provided [] required = required
read_ius provided (iu ∷ ius) required =
    if not (occurs iu provided) && not (occurs iu required)
    then read_ius provided ius (required ++ iu ∷ [])
    else read_ius provided ius required

-- the loop over the range, from `in_provided` and `in_required_ordered`
unfoldable pub required_ius : List ℕ → List ℕ → List Subop → List ℕ
unfolding read_ius
required_ius provided required [] = required
required_ius provided required (s ∷ ss) =
    required_ius (provided ++ s.ius) (read_ius (provided ++ s.ius) s.source_ius required) ss

unfoldable pub prepend : Option Subop → List Subop → List Subop
prepend none ss = ss
prepend (some s) ss = s ∷ ss

unfoldable pub insert_required : List ℕ → List ℕ → List ℕ → List ℕ
unfolding insert_iu occurs
insert_required provided [] out = out
insert_required provided (iu ∷ ius) out =
    insert_required provided ius (if occurs iu provided then insert_iu iu out else out)

-- the outputs that suboperators behind the range read
unfoldable pub outputs_required : List ℕ → List Subop → List ℕ → List ℕ
unfolding insert_required
outputs_required provided [] out = out
outputs_required provided (s ∷ ss) out =
    outputs_required provided ss (insert_required provided s.source_ius out)

module _ (is_void : ℕ → Bool) where
  -- the outputs of a suboperator, without the IUs that only order it
  unfoldable pub insert_outputs : List ℕ → List ℕ → List ℕ
  unfolding insert_iu
  insert_outputs [] out = out
  insert_outputs (iu ∷ ius) out = insert_outputs ius (if is_void iu then out else insert_iu iu out)

  unfoldable pub outputs_without_strong : List Subop → List ℕ → List ℕ
  unfolding insert_outputs
  outputs_without_strong [] out = out
  outputs_without_strong (s ∷ ss) out =
      outputs_without_strong ss (if s.outgoing_strong_links then out else insert_outputs s.ius out)

  unfoldable pub all_outputs : List Subop → List ℕ → List ℕ
  unfolding insert_outputs
  all_outputs [] out = out
  all_outputs (s ∷ ss) out = all_outputs ss (insert_outputs s.ius out)

module _ (is_void : ℕ → Bool) (new_id : ℕ → ℕ) (driver_iu : ℕ) where
  -- `FuseChunkSourceDriver`, `FuseChunkSourceIUProvider` and `FuseChunkSink`
  unfoldable pub build_subop : ℕ → List ℕ → List ℕ → Subop
  build_subop n source_ius ius = record {
    id = new_id n;
    ius = ius;
    source_ius = source_ius;
    rof = default;
    incoming_strong_links = false;
    outgoing_strong_links = false;
    is_tuple_materializer = false;
  }

  unfoldable pub build_providers : ℕ → List ℕ → List Subop
  unfolding build_subop
  build_providers n [] = []
  build_providers n (iu ∷ ius) =
      let rest = build_providers (n + 1) ius in
      if is_void iu then rest else build_subop n (driver_iu ∷ []) (iu ∷ []) ∷ rest

  unfoldable pub build_sources : List ℕ → List Subop
  unfolding build_subop build_providers
  build_sources [] = []
  build_sources (iu ∷ ius) = build_subop 0 [] (driver_iu ∷ []) ∷ build_providers 1 (iu ∷ ius)

  unfoldable pub build_sinks : ℕ → List ℕ → List Subop
  unfolding build_subop
  build_sinks n [] = []
  build_sinks n (iu ∷ ius) = build_subop n (iu ∷ []) [] ∷ build_sinks (n + 1) ius

  -- the inputs of the new pipeline; the first suboperator of a materialising range reads only its
  -- first IU
  unfoldable pub inputs : Subop → Option Subop → List Subop → List ℕ
  unfolding required_ius
  inputs first incoming subops =
      if first.is_tuple_materializer then take 1 first.source_ius else elim incoming [
        | none ↦ required_ius [] [] subops
        | some s ↦ required_ius (take 1 s.ius) s.source_ius subops
      ]

  -- what is attached to the new pipeline, in this order
  unfoldable pub connect : Subop → Option Subop → Option Subop → List Subop → List ℕ → List Subop
  unfolding inputs build_sources build_sinks prepend
  connect first incoming outgoing subops materialize =
      let required = inputs first incoming subops in
      build_sources required
      ++ prepend incoming
          (subops ++ prepend outgoing (build_sinks (length required + 1) materialize))

  unfoldable pub repipe : Pipeline → ℕ → ℕ → List ℕ → Option Pipeline
  unfolding range strong_end connect
  repipe p start end materialize =
      let new_pipe : Pipeline = record new_pipeline { parallel_codegen = p.parallel_codegen } in
      if start == end then some new_pipe else do
        first ← get_elem? p.suboperators start
        last ← get_elem? p.suboperators (end - 1)
        incoming ←
            if first.incoming_strong_links
            then Option.map some (strong_end p (get_producers p first.id))
            else some none
        outgoing ←
            if last.outgoing_strong_links
            then Option.map some (strong_end p (get_consumers p last.id))
            else some none
        some (attach_all (connect first incoming outgoing (range p start end) materialize) new_pipe)

  unfoldable pub repipe_all : Pipeline → ℕ → ℕ → Option Pipeline
  unfolding outputs_without_strong repipe
  repipe_all p start end =
      repipe p start end (outputs_without_strong is_void (range p start end) [])

  unfoldable pub repipe_required : Pipeline → ℕ → ℕ → Option Pipeline
  unfolding all_outputs outputs_required repipe
  repipe_required p start end =
      let provided = all_outputs is_void (range p start end) [] in
      repipe p start end (outputs_required provided (drop end p.suboperators) [])
