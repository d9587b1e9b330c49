-- ===== src/Algebra/Repipe/Sources.antt =====
-- algebra/Pipeline.cpp: what `repipe` attaches in front of the range and behind it, told by the IUs.
use inkfuse.Base.{
  ℕ, ◌+◌, ◌≡◌, refl, subst, sym, ◌∙◌, inl, inr, Bool, true, false, not, ◌&&◌, List, [], ◌∷◌, ◌++◌,
  arith, ◌==◌, ==→eq, eq→==, if◌then◌else◌, Bool-cases,
}
use inkfuse.Algebra.{Subop}
use inkfuse.Algebra.Graph.{occurrences}
use inkfuse.Algebra.Repipe.{build_subop, build_providers, build_sources, build_sinks}

-- Each reads the driver's IU and nothing else, and provides one IU.
unfoldable pub AllProviders : ℕ → List Subop → Type 0
AllProviders driver_iu [] = Unit
AllProviders driver_iu (s ∷ ss) =
    (s.source_ius ≡ driver_iu ∷ []) × ((iu : ℕ) × (s.ius ≡ iu ∷ [])) × AllProviders driver_iu ss

unfoldable pub provided_ius : List Subop → List ℕ
provided_ius [] = []
provided_ius (s ∷ ss) = s.ius ++ provided_ius ss

-- Sources for the IUs that are wanted: none if no IU is wanted, and else a driver that reads
-- nothing, followed by one provider for each IU that is wanted and has a value.
unfoldable pub AreSources : (ℕ → Bool) → ℕ → (ℕ → Bool) → List Subop → Type 0
unfolding AllProviders provided_ius
AreSources is_void driver_iu wanted [] = (x : ℕ) → wanted x ≡ false
AreSources is_void driver_iu wanted (driver ∷ providers) =
    ((x : ℕ) × (wanted x ≡ true))
    × (driver.source_ius ≡ [])
    × (driver.ius ≡ driver_iu ∷ [])
    × AllProviders driver_iu providers
    × ((x : ℕ)
        → occurrences x (provided_ius providers) ≡ (if not (is_void x) && wanted x then 1 else 0))

-- One sink for each IU, in order, which reads it and provides nothing.
unfoldable pub AreSinks : List ℕ → List Subop → Type 0
AreSinks [] [] = Unit
AreSinks (iu ∷ ius) (s ∷ ss) = (s.source_ius ≡ iu ∷ []) × (s.ius ≡ []) × AreSinks ius ss
AreSinks _ _ = ⊥

module _ (is_void : ℕ → Bool) (new_id : ℕ → ℕ) (driver_iu : ℕ) where
  build_providers-AllProviders :
      (n : ℕ) (ius : List ℕ)
      → AllProviders driver_iu (build_providers is_void new_id driver_iu n ius)
  unfolding build_providers build_subop AllProviders
  build_providers-AllProviders n [] = tt
  build_providers-AllProviders n (iu ∷ ius) =
      let rest = build_providers-AllProviders (n + 1) ius in
      elim (Bool-cases (is_void iu)) [
        | inl void ↦ rw void rest
        | inr plain ↦ rw plain (refl, (iu, refl), rest)
      ]

  provided_lem :
      (x n : ℕ) (ius : List ℕ)
      → occurrences x (provided_ius (build_providers is_void new_id driver_iu n ius))
        ≡ (if is_void x then 0 else occurrences x ius)
  unfolding build_providers build_subop provided_ius occurrences
  provided_lem x n [] = elim (Bool-cases (is_void x)) [ inl e ↦ rw e refl | inr e ↦ rw e refl ]
  provided_lem x n (iu ∷ ius) =
      let rest = provided_lem x (n + 1) ius in
      elim (Bool-cases (iu == x)) [
        | inl here ↦
            let same = ==→eq iu x here in
            elim (Bool-cases (is_void x)) [
              | inl void ↦
                  let void' = subst (λ y. is_void y ≡ true) (sym same) void in
                  let rest' = (rw void at rest) in rw (void, void') rest'
              | inr plain ↦
                  let plain' = subst (λ y. is_void y ≡ false) (sym same) plain in
                  let rest' = (rw plain at rest) in rw (plain, plain', here) (omega (arith, rest'))
            ]
        | inr other ↦ elim (Bool-cases (is_void iu)) [
          | inl void ↦ elim (Bool-cases (is_void x)) [
            | inl skip ↦ let rest' = (rw skip at rest) in rw (void, skip) rest'
            | inr keep ↦
                let rest' = (rw keep at rest) in rw (void, other, keep) (omega (arith, rest'))
          ]
          | inr plain ↦ elim (Bool-cases (is_void x)) [
            | inl skip ↦
                let rest' = (rw skip at rest) in rw (plain, other, skip) (omega (arith, rest'))
            | inr keep ↦
                let rest' = (rw keep at rest) in rw (plain, other, keep) (omega (arith, rest'))
          ]
        ]
      ]

  pub build_sources-AreSources :
      (wanted : ℕ → Bool) (required : List ℕ)
      → ((x : ℕ) → occurrences x required ≡ (if wanted x then 1 else 0))
      → AreSources is_void driver_iu wanted (build_sources is_void new_id driver_iu required)
  unfolding build_sources build_subop AreSources occurrences
  build_sources-AreSources wanted [] counts = λ x. elim (Bool-cases (wanted x)) [
    | inl yes_ ↦ let count = counts x in let bad = (rw yes_ at count) in absurd (omega (arith, bad))
    | inr no_ ↦ no_
  ]
  build_sources-AreSources wanted (iu ∷ ius) counts = (
    (
      iu,
      elim (Bool-cases (wanted iu)) [
        | inl yes_ ↦ yes_
        | inr no_ ↦
            let count = counts iu in
            let bad = (rw (no_, eq→== iu iu refl) at count) in absurd (omega (arith, bad))
      ],
    ),
    refl,
    refl,
    build_providers-AllProviders 1 (iu ∷ ius),
    λ x. elim (Bool-cases (is_void x)) [
      | inl void ↦ provided_lem x 1 (iu ∷ ius) ∙ rw void refl
      | inr plain ↦ provided_lem x 1 (iu ∷ ius) ∙ rw plain (counts x)
    ],
  )

  pub build_sinks-AreSinks :
      (n : ℕ) (ius : List ℕ) → AreSinks ius (build_sinks is_void new_id driver_iu n ius)
  unfolding build_sinks build_subop AreSinks
  build_sinks-AreSinks n [] = tt
  build_sinks-AreSinks n (iu ∷ ius) = (refl, refl, build_sinks-AreSinks (n + 1) ius)
