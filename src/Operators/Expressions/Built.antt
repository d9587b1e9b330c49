-- ===== src/Operators/Expressions/Built.antt =====
-- algebra/ExpressionOp.h and ExpressionOp.cpp: the nodes of an expression, and calls of `decayNode` on one of them.
use inkfuse.Base.{
  ℕ, ◌<◌, ◌≡◌, refl, ap, ◌∙◌, true, false, Option, none, some, List, [], ◌∷◌, ◌==◌, eq→==, update,
}
use inkfuse.Runtime.Run.{ok, ◌>>=◌}
use inkfuse.Algebra.Repipe.{occurs}
use inkfuse.Operators.Types.{IrType, Iu}
use inkfuse.Operators.Attach.{Code, Decay, attach}
use inkfuse.Operators.Accepted.{IsNoRuntimeCast}
use inkfuse.Operators.Expressions.{
  Node, iu_ref, compute, Nodes, nil, cons, address, Building, expression_draft, decay_node,
  decay_children,
}

-- The IU that a node stands for.
abbrev pub iu_of : Node → Iu
iu_of (iu_ref n iu) = iu
iu_of (compute n code out children param) = out

-- A node is made after its children, refers only to IUs that are visible, and is no cast if it has
-- a runtime parameter. Nodes at one address
-- are one node, so they stand for one IU, which `iu_at` gives.
unfoldable mutual
  pub IsWellBuilt : (ℕ → Iu) → List ℕ → Node → Type 0
  IsWellBuilt iu_at visible (iu_ref n iu) = (iu ≡ iu_at n) × (occurs iu.id visible ≡ true)
  IsWellBuilt iu_at visible (compute n code out children param) =
      (out ≡ iu_at n) × IsNoRuntimeCast code param × AreWellBuilt iu_at visible n children

  -- The nodes have addresses below `n`.
  pub AreWellBuilt : (ℕ → Iu) → List ℕ → ℕ → Nodes → Type 0
  AreWellBuilt iu_at visible n nil = Unit
  AreWellBuilt iu_at visible n (cons node nodes) =
      (address node < n) × IsWellBuilt iu_at visible node × AreWellBuilt iu_at visible n nodes

-- The IUs of the roots.
abbrev pub root_ius : Nodes → List ℕ
root_ius nil = []
root_ius (cons node nodes) = (iu_of node).id ∷ root_ius nodes

pub update_here : (f : ℕ → Option Iu) (n : ℕ) (iu : Iu) → update f n (some iu) n ≡ some iu
update_here f n iu = rw (eq→== n n refl) refl

pub update_apart :
    (f : ℕ → Option Iu) (n k : ℕ) (iu : Iu) → (k == n) ≡ false → update f n (some iu) k ≡ f k
update_apart f n k iu e = rw e refl

pub drafted :
    (code : Code) (out : Iu) (source_ius : List ℕ) (param : Option IrType)
    → ((expression_draft code out source_ius param).ius ≡ out.id ∷ [])
      × ((expression_draft code out source_ius param).source_ius ≡ source_ius)
unfolding expression_draft
drafted code out source_ius none = (refl, refl)
drafted code out source_ius (some type) = (refl, refl)

pub decay_node-old :
    (node : Node) (b : Building) (old : Iu)
    → b.built (address node) ≡ some old
    → decay_node node b ≡ ok b
unfolding decay_node
decay_node-old (iu_ref n iu) b old e =
    ap (λ o. elim o [ some _ ↦ ok b | none ↦ ok (record b { built = update b.built n (some iu) }) ])
      e
decay_node-old (compute n code out children param) b old e =
    ap
      (λ o. elim o [
        | some _ ↦ ok b
        | none ↦ do
          (source_ius, b') ←
              decay_children children (record b { built = update b.built n (some out) })
          decay ← attach (expression_draft code out source_ius param) b'.decay
          ok (record b' { decay = decay })
      ])
      e

pub decay_node-ref :
    (n : ℕ) (iu : Iu) (b : Building)
    → b.built n ≡ none
    → decay_node (iu_ref n iu) b ≡ ok (record b { built = update b.built n (some iu) })
unfolding decay_node
decay_node-ref n iu b e =
    ap (λ o. elim o [ some _ ↦ ok b | none ↦ ok (record b { built = update b.built n (some iu) }) ])
      e

pub decay_node-compute :
    (n : ℕ) (code : Code) (out : Iu) (children : Nodes) (param : Option IrType) (b b' : Building)
    (source_ius : List ℕ) (s : Decay)
    → b.built n ≡ none
    → decay_children children (record b { built = update b.built n (some out) })
      ≡ ok (source_ius, b')
    → attach (expression_draft code out source_ius param) b'.decay ≡ ok s
    → decay_node (compute n code out children param) b ≡ ok (record b' { decay = s })
unfolding decay_node
decay_node-compute n code out children param b b' source_ius s e r r' =
    ap
      (λ o. elim o [
        | some _ ↦ ok b
        | none ↦ do
          (source_ius, b') ←
              decay_children children (record b { built = update b.built n (some out) })
          decay ← attach (expression_draft code out source_ius param) b'.decay
          ok (record b' { decay = decay })
      ])
      e
    ∙ rw (r, r', ◌>>=◌) refl
