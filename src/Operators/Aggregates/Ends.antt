-- ===== src/Operators/Aggregates/Ends.antt =====
-- algebra/Aggregation.cpp: `plan` ends, and the granules fit into the row.
use inkfuse.Base.{
  ℕ, zero, suc, ◌+◌, ◌-◌, ◌*◌, ◌≤◌, ◌<◌, ◌≡◌, ◌≢◌, refl, subst, inl, inr, false, List, [], ◌∷◌,
  arith, ltb, Bool-cases,
}
use inkfuse.Runtime.Run.{ok, ◌>>=◌}
use inkfuse.Operators.Types.{num_bytes, Iu}
use inkfuse.Operators.Aggregates.{
  Opcode, min, max, sum, count, avg, median, Description, AggState, agg_state_count, agg_state_sum,
  RegistryEntry, get_state_size, resolve, resolve_sum, resolve_count, resolve_avg, lookup_subops,
  Granule, size_of, insert_granule, insert_granules, collect, last_size, align, total_size,
  aggregators, plan_functions, Plan, plan,
}

-- The opcodes that the registry resolves.
abbrev pub IsImplemented : Opcode → Type 0
IsImplemented sum = Unit
IsImplemented count = Unit
IsImplemented avg = Unit
IsImplemented _ = ⊥

-- Aggregate functions that are implemented, over columns with a width.
abbrev pub ArePlanned : List Description → Type 0
ArePlanned [] = Unit
ArePlanned (d ∷ ds) =
    (d.distinct ≡ false) × IsImplemented d.code × (0 < num_bytes d.agg_iu.type) × ArePlanned ds

-- The loop ends at a multiple of the step, less than a step behind the key.
align_lem :
    (fuel key_size step k offset : ℕ)
    → 0 < step
    → key_size - offset < fuel
    → offset ≡ k * step
    → offset < key_size + step
    → (n : ℕ) × (align fuel key_size step offset ≡ ok (n * step))
      × (key_size ≤ n * step)
      × (n * step < key_size + step)
unfolding align
align_lem zero key_size step k offset pos h e l = absurd (omega (arith, h))
align_lem (suc fuel) key_size step k offset pos h e l = elim (Bool-cases (ltb offset key_size)) [
  | inl more ↦
      let below : offset < key_size = ground (arith, more) in
      rw more (
        align_lem fuel key_size step (k + 1) (offset + step) pos (omega (arith, h, pos, below))
          (grind (arith, e)) (omega (arith, below)))
  | inr done ↦
      let past : key_size ≤ offset = ground (arith, done) in
      (k, rw (done, e) refl, subst (λ o. key_size ≤ o) e past, subst (λ o. o < key_size + step) e l)
]

abbrev AllWide : List Granule → Type 0
AllWide [] = Unit
AllWide (g ∷ gs) = (0 < size_of g) × AllWide gs

insert_granule-AllWide :
    (g : Granule) (hs : List Granule) → 0 < size_of g → AllWide hs → AllWide (insert_granule g hs)
unfolding insert_granule
insert_granule-AllWide g [] w all = (w, tt)
insert_granule-AllWide g (h ∷ hs) w (first, others) =
    ground (arith, insert_granule-AllWide g hs w others)

insert_granule-ne-nil : (g : Granule) (hs : List Granule) → insert_granule g hs ≢ []
unfolding insert_granule
insert_granule-ne-nil g [] = cc
insert_granule-ne-nil g (h ∷ hs) = ground arith

insert_granules-ne-nil :
    (iu : Iu) (ss : List AggState) (hs : List Granule) → hs ≢ [] → insert_granules iu ss hs ≢ []
unfolding insert_granules
insert_granules-ne-nil iu [] hs h = h
insert_granules-ne-nil iu (s ∷ ss) hs h =
    insert_granules-ne-nil iu ss _ (insert_granule-ne-nil _ hs)

-- What an implemented function inserts.
abbrev Inserts : Description → Type 0
Inserts d =
    (entry : RegistryEntry) × (lookup_subops d ≡ ok entry)
    × ((hs : List Granule) → AllWide hs → AllWide (insert_granules d.agg_iu entry.granules hs))
    × ((hs : List Granule) → insert_granules d.agg_iu entry.granules hs ≢ [])

lookup_subops-Inserts :
    (d : Description)
    → d.distinct ≡ false
    → IsImplemented d.code
    → 0 < num_bytes d.agg_iu.type
    → Inserts d
unfolding lookup_subops resolve_sum resolve_count resolve_avg get_state_size insert_granules
lookup_subops-Inserts d e i w = rw e (by_code d.code i)
  where
    by_code :
        (c : Opcode)
        → IsImplemented c
        → (entry : RegistryEntry) × (resolve c d.agg_iu ≡ ok entry)
          × ((hs : List Granule)
              → AllWide hs
              → AllWide (insert_granules d.agg_iu entry.granules hs))
          × ((hs : List Granule) → insert_granules d.agg_iu entry.granules hs ≢ [])
    by_code sum i =
        (_, refl, (λ hs all. insert_granule-AllWide _ hs w all), (λ hs. insert_granule-ne-nil _ hs))
    by_code count i = (
      _,
      refl,
      (λ hs all. insert_granule-AllWide _ hs (omega arith) all),
      (λ hs. insert_granule-ne-nil _ hs),
    )
    by_code avg i = (
      _,
      refl,
      (λ hs all. insert_granule-AllWide _ _ (omega arith) (insert_granule-AllWide _ hs w all)),
      (λ hs.
          insert_granule-ne-nil (record { iu = d.agg_iu; state = agg_state_count })
            (insert_granule (record { iu = d.agg_iu; state = agg_state_sum d.agg_iu.type }) hs)),
    )
    by_code min i = absurd i
    by_code max i = absurd i
    by_code median i = absurd i

collect_ends :
    (ds : List Description) (hs : List Granule)
    → ArePlanned ds
    → AllWide hs
    → (functions : List (Description × RegistryEntry)) × (all : List Granule) × (collect ds hs
        ≡ ok (functions, all))
      × AllWide all
      × (hs ≢ [] → all ≢ [])
unfolding collect
collect_ends [] hs p wide = ([], hs, refl, wide, λ h. h)
collect_ends (d ∷ ds) hs (e, i, w, others) wide =
    let (entry, found, widens, _) = lookup_subops-Inserts d e i w in
    let (functions, all, r, wide', more) =
      collect_ends ds (insert_granules d.agg_iu entry.granules hs) others (widens hs wide) in
    (
      (d, entry) ∷ functions,
      all,
      rw (found, r, ◌>>=◌) refl,
      wide',
      λ h. more (insert_granules-ne-nil d.agg_iu entry.granules hs h),
    )

collect-ne-nil :
    (d : Description) (ds : List Description)
    → ArePlanned (d ∷ ds)
    → (functions : List (Description × RegistryEntry)) × (all : List Granule) × (collect (d ∷ ds) []
        ≡ ok (functions, all))
      × AllWide all
      × (all ≢ [])
unfolding collect
collect-ne-nil d ds (e, i, w, others) =
    let (entry, found, widens, filled) = lookup_subops-Inserts d e i w in
    let (functions, all, r, wide', more) =
      collect_ends ds (insert_granules d.agg_iu entry.granules []) others (widens [] tt) in
    ((d, entry) ∷ functions, all, rw (found, r, ◌>>=◌) refl, wide', more (filled []))

last_size_pos :
    (gs : List Granule) → AllWide gs → gs ≢ [] → (n : ℕ) × (last_size gs ≡ ok n) × (0 < n)
unfolding last_size
last_size_pos [] wide h = absurd (h refl)
last_size_pos (g ∷ []) (w, _) h = (size_of g, refl, w)
last_size_pos (g ∷ h ∷ hs) (_, wide) _ = last_size_pos (h ∷ hs) wide (cc)

-- The granules stand in the row from `start` to `end`, each behind those in front of it.
abbrev pub Apart : ℕ → List (Granule × ℕ) → ℕ → Type 0
Apart start [] end = start ≤ end
Apart start ((g, offset) ∷ entries) end = (start ≤ offset) × Apart (offset + size_of g) entries end

aggregators-Apart :
    (gs : List Granule) (start end : ℕ)
    → start + total_size gs ≤ end
    → Apart start (aggregators gs start) end
unfolding aggregators total_size
aggregators-Apart [] start end h = omega (arith, h)
aggregators-Apart (g ∷ gs) start end h =
    (omega arith, aggregators-Apart gs (start + size_of g) end (omega (arith, h)))

Apart-le :
    (entries : List (Granule × ℕ)) (start start' end : ℕ)
    → start' ≤ start
    → Apart start entries end
    → Apart start' entries end
Apart-le [] start start' end l h = omega (arith, l, h)
Apart-le ((g, offset) ∷ entries) start start' end l (h, others) = (omega (arith, l, h), others)

-- For one or more aggregate functions that are implemented, over columns with a width, `plan` ends.
-- The payload then starts at the first offset behind the key that is a multiple of the size of the
-- last granule, and the granules stand behind the key and inside the payload, and do not overlap.
pub plan_ends :
    (key_size : ℕ) (d : Description) (ds : List Description)
    → ArePlanned (d ∷ ds)
    → (p : Plan) × (step n : ℕ) × (plan key_size (d ∷ ds) ≡ ok p)
      × (last_size p.granules ≡ ok step)
      × (key_size + p.payload_offset ≡ n * step)
      × (p.payload_offset < step)
      × Apart key_size
          (aggregators p.granules (key_size + p.payload_offset))
          (key_size + p.payload_size)
unfolding plan
plan_ends key_size d ds planned =
    let (functions, all, c, wide, some_) = collect-ne-nil d ds planned in
    let (step, l, pos) = last_size_pos all wide some_ in
    let (n, a, above, below) =
      align_lem (key_size + 1) key_size step 0 0 pos (omega arith) (omega arith)
        (omega (arith, pos)) in
    let payload_offset = n * step - key_size in
    let p : Plan = record {
      granules = all;
      compute = plan_functions functions all payload_offset;
      payload_offset = payload_offset;
      payload_size = payload_offset + total_size all;
    } in
    (
      p,
      step,
      n,
      rw (c, l, a, ◌>>=◌) refl,
      l,
      omega (arith, above),
      omega (arith, above, below),
      Apart-le (aggregators all (key_size + payload_offset)) (key_size + payload_offset) key_size _
          (omega arith) (aggregators-Apart all (key_size + payload_offset) _ (omega arith)),
    )
