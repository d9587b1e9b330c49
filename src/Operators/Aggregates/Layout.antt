-- ===== src/Operators/Aggregates/Layout.antt =====
-- algebra/Aggregation.cpp: an aggregate function reads its granules where they are updated.
use inkfuse.Base.{
  ℕ, ◌+◌, ◌-◌, ◌≡◌, refl, sym, ap, subst, ◌∙◌, ◌⊎◌, inl, inr, true, false, not, ◌&&◌, List, [], ◌∷◌,
  arith, Bool-cases,
}
use inkfuse.Runtime.Run.{Run, ok, throws, diverges, >>=-eq-ok}
use inkfuse.Operators.Types.{Iu}
use inkfuse.Operators.Aggregates.{
  Description, AggState, RegistryEntry, lookup_subops, Granule, size_of, rank, greater,
  insert_granule, insert_granules, collect, last_size, align, granule_offset, granule_offsets,
  aggregators, PlannedAggCompute, plan_functions, Plan, plan,
}

-- Two granules that the set takes for one.
abbrev pub Same : Granule → Granule → Type 0
Same g h = (size_of g ≡ size_of h) × (g.iu.id ≡ h.iu.id) × (rank g.state ≡ rank h.state)

-- A list holds an entry for a granule that is the same, at an offset.
abbrev pub WorksAt : Granule → ℕ → List (Granule × ℕ) → Type 0
WorksAt g offset [] = ⊥
WorksAt g offset ((h, o) ∷ entries) = (Same g h × (o ≡ offset)) ⊎ WorksAt g offset entries

abbrev Holds : Granule → List Granule → Type 0
Holds g [] = ⊥
Holds g (h ∷ hs) = Same g h ⊎ Holds g hs

not-greater-Same : (g h : Granule) → (not (greater g h) && not (greater h g)) ≡ true → Same g h
unfolding greater
not-greater-Same g h e = ground arith

Same-not-greater : (g h : Granule) → Same g h → (not (greater g h) && not (greater h g)) ≡ true
unfolding greater
Same-not-greater g h e = ground arith

not_greater : (g h : Granule) → greater g h ≡ false → greater h g ≡ false → Same g h
not_greater g h a b = not-greater-Same g h (rw (a, b) refl)

insert_granule-Holds : (g : Granule) (hs : List Granule) → Holds g (insert_granule g hs)
unfolding insert_granule
insert_granule-Holds g [] = inl (refl, refl, refl)
insert_granule-Holds g (h ∷ hs) = elim (Bool-cases (greater g h)) [
  | inl front ↦ rw front (inl (refl, refl, refl))
  | inr e ↦ elim (Bool-cases (greater h g)) [
    | inl later ↦ rw (e, later) (inr (insert_granule-Holds g hs))
    | inr same ↦ rw (e, same) (inl (not_greater g h e same))
  ]
]

insert_granule-keeps :
    (g k : Granule) (hs : List Granule) → Holds g hs → Holds g (insert_granule k hs)
unfolding insert_granule
insert_granule-keeps g k [] m = absurd m
insert_granule-keeps g k (h ∷ hs) m = elim (Bool-cases (greater k h)) [
  | inl front ↦ rw front (inr m)
  | inr e ↦ elim (Bool-cases (greater h k)) [
    | inl later ↦
        rw (e, later)
          (elim m [ inl here ↦ inl here | inr there ↦ inr (insert_granule-keeps g k hs there) ])
    | inr same ↦ rw (e, same) m
  ]
]

insert_granules-keeps :
    (g : Granule) (iu : Iu) (ss : List AggState) (hs : List Granule)
    → Holds g hs
    → Holds g (insert_granules iu ss hs)
unfolding insert_granules
insert_granules-keeps g iu [] hs m = m
insert_granules-keeps g iu (s ∷ ss) hs m =
    let k : Granule = record { iu = iu; state = s } in
    insert_granules-keeps g iu ss (insert_granule k hs) (insert_granule-keeps g k hs m)

-- All granules of an aggregate function are in the set.
abbrev AllHeld : Iu → List AggState → List Granule → Type 0
AllHeld iu [] hs = Unit
AllHeld iu (s ∷ ss) hs = Holds (record { iu = iu; state = s }) hs × AllHeld iu ss hs

insert_granules-AllHeld :
    (iu : Iu) (ss : List AggState) (hs : List Granule) → AllHeld iu ss (insert_granules iu ss hs)
unfolding insert_granules
insert_granules-AllHeld iu [] hs = tt
insert_granules-AllHeld iu (s ∷ ss) hs =
    let k : Granule = record { iu = iu; state = s } in
    (
      insert_granules-keeps k iu ss (insert_granule k hs) (insert_granule-Holds k hs),
      insert_granules-AllHeld iu ss (insert_granule k hs),
    )

granule_offset-here :
    (g h : Granule) (hs : List Granule) (offset : ℕ)
    → (not (greater g h) && not (greater h g)) ≡ true
    → granule_offset g (h ∷ hs) offset ≡ offset
unfolding granule_offset
granule_offset-here g h hs offset e = rw e refl

granule_offset-later :
    (g h : Granule) (hs : List Granule) (offset : ℕ)
    → (not (greater g h) && not (greater h g)) ≡ false
    → granule_offset g (h ∷ hs) offset ≡ granule_offset g hs (offset + size_of h)
unfolding granule_offset
granule_offset-later g h hs offset e = rw e refl

-- The offset that is found for a granule is where its aggregator works.
granule_offset-WorksAt :
    (g : Granule) (hs : List Granule) (base offset curr : ℕ)
    → Holds g hs
    → curr ≡ base + offset
    → WorksAt g (base + granule_offset g hs offset) (aggregators hs curr)
unfolding aggregators
granule_offset-WorksAt g [] base offset curr m e = absurd m
granule_offset-WorksAt g (h ∷ hs) base offset curr m e =
    elim (Bool-cases (not (greater g h) && not (greater h g))) [
      | inl same ↦
          subst (λ o. WorksAt g (base + o) (aggregators (h ∷ hs) curr))
            (sym (granule_offset-here g h hs offset same)) (inl (not-greater-Same g h same, e))
      | inr differ ↦
          subst (λ o. WorksAt g (base + o) (aggregators (h ∷ hs) curr))
            (sym (granule_offset-later g h hs offset differ))
            (inr (
              granule_offset-WorksAt g hs base (offset + size_of h) (curr + size_of h)
                (later m differ) (omega (arith, e))))
    ]
  where
    later : Holds g (h ∷ hs) → (not (greater g h) && not (greater h g)) ≡ false → Holds g hs
    later (inl same) differ = cc (Same-not-greater g h same)
    later (inr held) differ = held

-- The offsets of a function's granules are those at which their aggregators work.
abbrev pub OffsetsMatch : Iu → List AggState → List ℕ → ℕ → List (Granule × ℕ) → Type 0
OffsetsMatch iu [] [] key_size entries = Unit
OffsetsMatch iu (s ∷ ss) (o ∷ os) key_size entries =
    WorksAt (record { iu = iu; state = s }) (key_size + o) entries
    × OffsetsMatch iu ss os key_size entries
OffsetsMatch iu _ _ key_size entries = ⊥

granule_offsets-OffsetsMatch :
    (iu : Iu) (ss : List AggState) (hs : List Granule) (key_size payload_offset : ℕ)
    → AllHeld iu ss hs
    → OffsetsMatch iu ss
        (granule_offsets iu ss hs payload_offset)
        key_size
        (aggregators hs (key_size + payload_offset))
unfolding granule_offsets
granule_offsets-OffsetsMatch iu [] hs key_size payload_offset held = tt
granule_offsets-OffsetsMatch iu (s ∷ ss) hs key_size payload_offset (first, others) = (
  granule_offset-WorksAt (record { iu = iu; state = s }) hs key_size payload_offset _ first refl,
  granule_offsets-OffsetsMatch iu ss hs key_size payload_offset others,
)

AllHeld-keeps :
    (iu : Iu) (ss : List AggState) (iu' : Iu) (ss' : List AggState) (hs : List Granule)
    → AllHeld iu ss hs
    → AllHeld iu ss (insert_granules iu' ss' hs)
AllHeld-keeps iu [] iu' ss' hs held = tt
AllHeld-keeps iu (s ∷ ss) iu' ss' hs (first, others) =
    (insert_granules-keeps _ iu' ss' hs first, AllHeld-keeps iu ss iu' ss' hs others)

collect-keeps :
    (iu : Iu) (ss : List AggState) (ds : List Description) (hs : List Granule)
    (functions : List (Description × RegistryEntry)) (all : List Granule)
    → collect ds hs ≡ ok (functions, all)
    → AllHeld iu ss hs
    → AllHeld iu ss all
unfolding collect
collect-keeps iu ss [] hs functions all e held = subst (AllHeld iu ss) (cc e) held
collect-keeps iu ss (d ∷ ds) hs functions all e held =
    let (entry, _, e') = >>=-eq-ok (lookup_subops d) _ e in
    let ((functions', all'), r, e'') =
      >>=-eq-ok (collect ds (insert_granules d.agg_iu entry.granules hs)) _ e' in
    let same : all' ≡ all = cc e'' in
    subst (AllHeld iu ss) same (
      collect-keeps iu ss ds (insert_granules d.agg_iu entry.granules hs) functions' all' r
        (AllHeld-keeps iu ss d.agg_iu entry.granules hs held))

-- Each function reads where the aggregators of its granules work.
abbrev pub AllRead : List Description → List PlannedAggCompute → ℕ → List (Granule × ℕ) → Type 0
AllRead [] [] key_size entries = Unit
AllRead (d ∷ ds) (c ∷ cs) key_size entries =
    ((entry : RegistryEntry) × (lookup_subops d ≡ ok entry)
      × (c.compute ≡ entry.agg_reader)
      × OffsetsMatch d.agg_iu entry.granules c.granule_offsets key_size entries)
    × AllRead ds cs key_size entries
AllRead _ _ key_size entries = ⊥

collect-AllRead :
    (ds : List Description) (hs : List Granule) (functions : List (Description × RegistryEntry))
    (all : List Granule) (key_size payload_offset : ℕ)
    → collect ds hs ≡ ok (functions, all)
    → AllRead ds
        (plan_functions functions all payload_offset)
        key_size
        (aggregators all (key_size + payload_offset))
unfolding collect plan_functions
collect-AllRead [] hs functions all key_size payload_offset e =
    let none_ : [] ≡ functions = cc e in
    subst
      (λ fs.
        AllRead [] (plan_functions fs all payload_offset) key_size
          (aggregators all (key_size + payload_offset)))
      none_ tt
collect-AllRead (d ∷ ds) hs functions all key_size payload_offset e =
    let (entry, found, e') = >>=-eq-ok (lookup_subops d) _ e in
    let hs' = insert_granules d.agg_iu entry.granules hs in
    let ((functions', all'), r, e'') = >>=-eq-ok (collect ds hs') _ e' in
    let same : all' ≡ all = cc e'' in
    let these : (d, entry) ∷ functions' ≡ functions = cc e'' in
    let r' : collect ds hs' ≡ ok (functions', all) = r ∙ ap (λ a. ok (functions', a)) same in
    let held =
      collect-keeps d.agg_iu entry.granules ds hs' functions' all r'
        (insert_granules-AllHeld d.agg_iu entry.granules hs) in
    subst
      (λ fs.
        AllRead (d ∷ ds) (plan_functions fs all payload_offset) key_size
          (aggregators all (key_size + payload_offset)))
      these
      (
        (
          entry,
          found,
          refl,
          granule_offsets-OffsetsMatch d.agg_iu entry.granules all key_size payload_offset held,
        ),
        collect-AllRead ds hs' functions' all key_size payload_offset r',
      )

-- In a plan each aggregate function reads each of its granules at the offset at which the
-- aggregator of that granule works.
pub plan-AllRead :
    (key_size : ℕ) (ds : List Description) (p : Plan)
    → plan key_size ds ≡ ok p
    → AllRead ds p.compute key_size (aggregators p.granules (key_size + p.payload_offset))
unfolding plan
plan-AllRead key_size ds p e =
    let ((functions, to_compute), c, e') = >>=-eq-ok (collect ds []) _ e in
    let (step, _, e'') = >>=-eq-ok (last_size to_compute) _ e' in
    let (aligned, _, done) = >>=-eq-ok (align (key_size + 1) key_size step 0) _ e'' in
    subst (λ r. Reads r) done
      (collect-AllRead ds [] functions to_compute key_size (aligned - key_size) c)
  where
    Reads : Run Plan → Type 0
    Reads (ok p) =
        AllRead ds p.compute key_size (aggregators p.granules (key_size + p.payload_offset))
    Reads throws = ⊥
    Reads diverges = ⊥
