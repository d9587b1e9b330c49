-- ===== src/Operators/Closed.antt =====
-- algebra/Pipeline.cpp: pipelines in which every suboperator reads what those in front of it
-- provide, that start with a source and end with a sink.
use inkfuse.Base.{
  ℕ, zero, suc, ◌≡◌, refl, sym, ap, subst, ◌∙◌, inl, inr, Bool, true, false, List, [], ◌∷◌, ◌++◌,
  arith, ◌==◌, ==→eq, eq→==, Bool-cases, ltb, length, ◌-◌,
}
use mathlib.Core.List.{append-nil, append_assoc}
use inkfuse.Algebra.{
  RofStrategy, begin_vectorized, end_vectorized, Subop, set_rof_strategy, end_scope,
}
use inkfuse.Algebra.Repipe.{occurs}

-- All IUs of a list are among those of another.
abbrev pub Within : List ℕ → List ℕ → Type 0
Within [] provided = Unit
Within (iu ∷ ius) provided = (occurs iu provided ≡ true) × Within ius provided

-- Each suboperator reads what `provided` has or what one in front of it provides.
abbrev pub IsClosed : List ℕ → List Subop → Type 0
IsClosed provided [] = Unit
IsClosed provided (s ∷ ss) = Within s.source_ius provided × IsClosed (provided ++ s.ius) ss

-- The IUs that suboperators provide.
abbrev pub ius_of : List Subop → List ℕ
ius_of [] = []
ius_of (s ∷ ss) = s.ius ++ ius_of ss

abbrev pub is_empty : List ℕ → Bool
is_empty [] = true
is_empty (x ∷ xs) = false

-- The first suboperator is a source.
unfoldable pub starts_with_source : List Subop → Bool
starts_with_source [] = false
starts_with_source (s ∷ ss) = is_empty s.source_ius

-- The last suboperator is a sink.
unfoldable pub ends_with_sink : List Subop → Bool
ends_with_sink [] = false
ends_with_sink (s ∷ []) = is_empty s.ius
ends_with_sink (s ∷ t ∷ ss) = ends_with_sink (t ∷ ss)

pub occurs-append_left : (x : ℕ) (xs ys : List ℕ) → occurs x xs ≡ true → occurs x (xs ++ ys) ≡ true
unfolding occurs
occurs-append_left x [] ys h = cc
occurs-append_left x (y ∷ xs) ys h = ground (arith, occurs-append_left x xs ys)

pub occurs-append_right : (x : ℕ) (xs ys : List ℕ) → occurs x ys ≡ true → occurs x (xs ++ ys) ≡ true
unfolding occurs
occurs-append_right x [] ys h = h
occurs-append_right x (y ∷ xs) ys h = ground (arith, occurs-append_right x xs ys h)

pub Within-append_left : (ius xs ys : List ℕ) → Within ius xs → Within ius (xs ++ ys)
Within-append_left [] xs ys w = tt
Within-append_left (iu ∷ ius) xs ys (h, w) =
    (occurs-append_left iu xs ys h, Within-append_left ius xs ys w)

pub Within-append_right : (ius xs ys : List ℕ) → Within ius ys → Within ius (xs ++ ys)
Within-append_right [] xs ys w = tt
Within-append_right (iu ∷ ius) xs ys (h, w) =
    (occurs-append_right iu xs ys h, Within-append_right ius xs ys w)

pub occurs-Within :
    (x : ℕ) (xs ys : List ℕ) → Within xs ys → occurs x xs ≡ true → occurs x ys ≡ true
unfolding occurs
occurs-Within x [] ys w h = cc
occurs-Within x (y ∷ xs) ys (here, w) h = elim (Bool-cases (y == x)) [
  | inl same ↦ subst (λ z. occurs z ys ≡ true) (==→eq y x same) here
  | inr other ↦ occurs-Within x xs ys w (ground (arith, h, other))
]

pub Within-trans : (xs ys zs : List ℕ) → Within xs ys → Within ys zs → Within xs zs
Within-trans [] ys zs w v = tt
Within-trans (x ∷ xs) ys zs (h, w) v = (occurs-Within x ys zs v h, Within-trans xs ys zs w v)

pub Within-refl : (xs : List ℕ) → Within xs xs
unfolding occurs
Within-refl [] = tt
Within-refl (x ∷ xs) =
    (ground (arith, eq→== x x refl), Within-append_right xs (x ∷ []) xs (Within-refl xs))

pub Within-both : (xs ys zs : List ℕ) → Within xs zs → Within ys zs → Within (xs ++ ys) zs
Within-both [] ys zs w v = v
Within-both (x ∷ xs) ys zs (h, w) v = (h, Within-both xs ys zs w v)

-- More may be provided.
pub IsClosed-Within : (p q : List ℕ) (ss : List Subop) → Within p q → IsClosed p ss → IsClosed q ss
IsClosed-Within p q [] w c = tt
IsClosed-Within p q (s ∷ ss) w (h, c) = (
  Within-trans s.source_ius p q h w,
  IsClosed-Within (p ++ s.ius) (q ++ s.ius) ss
      (Within-both p s.ius (q ++ s.ius)
        (Within-trans p q (q ++ s.ius) w (Within-append_left q q s.ius (Within-refl q)))
        (Within-append_right s.ius q s.ius (Within-refl s.ius)))
      c,
)

pub IsClosed-append :
    (p : List ℕ) (ss ts : List Subop)
    → IsClosed p ss
    → IsClosed (p ++ ius_of ss) ts
    → IsClosed p (ss ++ ts)
IsClosed-append p [] ts c d = subst (λ q. IsClosed q ts) (append-nil p) d
IsClosed-append p (s ∷ ss) ts (h, c) d = (
  h,
  IsClosed-append (p ++ s.ius) ss ts c
      (subst (λ q. IsClosed q ts) (sym (append_assoc p s.ius (ius_of ss))) d),
)

pub ius_of-append : (ss ts : List Subop) → ius_of (ss ++ ts) ≡ ius_of ss ++ ius_of ts
ius_of-append [] ts = refl
ius_of-append (s ∷ ss) ts =
    ap (λ xs. s.ius ++ xs) (ius_of-append ss ts) ∙ sym (append_assoc s.ius (ius_of ss) (ius_of ts))

pub starts_with_source-append :
    (ss ts : List Subop) → starts_with_source ss ≡ true → starts_with_source (ss ++ ts) ≡ true
unfolding starts_with_source
starts_with_source-append [] ts h = cc
starts_with_source-append (s ∷ ss) ts h = h

pub ends_with_sink-append :
    (ss : List Subop) (t : Subop) → ends_with_sink (ss ++ t ∷ []) ≡ is_empty t.ius
unfolding ends_with_sink
ends_with_sink-append [] t = refl
ends_with_sink-append (s ∷ []) t = refl
ends_with_sink-append (s ∷ u ∷ ss) t = ends_with_sink-append (u ∷ ss) t

module _ (r : RofStrategy) where
  pub set_rof_strategy-IsClosed :
      (i : ℕ) (p : List ℕ) (ss : List Subop) → IsClosed p ss → IsClosed p (set_rof_strategy i r ss)
  unfolding set_rof_strategy
  set_rof_strategy-IsClosed i p [] c = tt
  set_rof_strategy-IsClosed zero p (s ∷ ss) c = c
  set_rof_strategy-IsClosed (suc i) p (s ∷ ss) (h, c) =
      (h, set_rof_strategy-IsClosed i (p ++ s.ius) ss c)

  pub ius_of-set_rof_strategy :
      (i : ℕ) (ss : List Subop) → ius_of (set_rof_strategy i r ss) ≡ ius_of ss
  unfolding set_rof_strategy
  ius_of-set_rof_strategy i [] = refl
  ius_of-set_rof_strategy zero (s ∷ ss) = refl
  ius_of-set_rof_strategy (suc i) (s ∷ ss) = ap (λ xs. s.ius ++ xs) (ius_of-set_rof_strategy i ss)

  pub starts_with_source-set_rof_strategy :
      (i : ℕ) (ss : List Subop)
      → starts_with_source (set_rof_strategy i r ss) ≡ starts_with_source ss
  unfolding set_rof_strategy starts_with_source
  starts_with_source-set_rof_strategy i [] = refl
  starts_with_source-set_rof_strategy zero (s ∷ ss) = refl
  starts_with_source-set_rof_strategy (suc i) (s ∷ ss) = refl

  pub ends_with_sink-set_rof_strategy :
      (i : ℕ) (ss : List Subop) → ends_with_sink (set_rof_strategy i r ss) ≡ ends_with_sink ss
  unfolding set_rof_strategy ends_with_sink
  ends_with_sink-set_rof_strategy i [] = refl
  ends_with_sink-set_rof_strategy zero (s ∷ []) = refl
  ends_with_sink-set_rof_strategy (suc i) (s ∷ []) = refl
  ends_with_sink-set_rof_strategy zero (s ∷ t ∷ ss) = refl
  ends_with_sink-set_rof_strategy (suc zero) (s ∷ t ∷ ss) =
      ends_with_sink-set_rof_strategy zero (t ∷ ss)
  ends_with_sink-set_rof_strategy (suc (suc i)) (s ∷ t ∷ ss) =
      ends_with_sink-set_rof_strategy (suc i) (t ∷ ss)

-- What a mark on one suboperator keeps, the end of a `ROFScopeGuard` keeps.
pub end_scope-keeps {ℓ} :
    (P : List Subop → Type ℓ)
    → ((r : RofStrategy) (i : ℕ) (ss : List Subop) → P ss → P (set_rof_strategy i r ss))
    → (size_at_start : ℕ) (ss : List Subop) → P ss
    → P (end_scope size_at_start ss)
unfolding end_scope
end_scope-keeps P keeps size_at_start ss h = elim (Bool-cases (ltb size_at_start (length ss))) [
  | inl some_ ↦
      rw some_ (keeps end_vectorized (length ss - 1) _ (keeps begin_vectorized size_at_start ss h))
  | inr none_ ↦ rw none_ h
]
