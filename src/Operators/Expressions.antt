-- ===== src/Operators/Expressions.antt =====
-- algebra/ExpressionOp.h and ExpressionOp.cpp: the nodes of an expression and their decay.
--
-- A node is a pointer in the source; its first field stands for the pointer, and nodes that share a
-- child have it twice. The map `built` is a function. Of a runtime parameter the type is kept.
pub mod Built
pub mod Closed
use inkfuse.Base.{ℕ, Bool, true, false, Option, none, some, List, [], ◌∷◌, ◌++◌, update}
use inkfuse.Runtime.Run.{Run, ok, throws, ◌>>=◌}
use inkfuse.Operators.Types.{IrType, boolean, Iu}
use inkfuse.Operators.Attach.{
  Code, add, cast, subtract, multiply, divide, eq, neq, less, and, or, less_equal, greater,
  greater_equal, constant, str_equals, in_list, not_like_tokens, Kind, Draft, Decay, attach,
}

mutual
  pub data Node : Type 0 where
    iu_ref : ℕ → Iu → Node
    compute : ℕ → Code → Iu → Nodes → Option IrType → Node

  pub data Nodes : Type 0 where
    nil : Nodes
    cons : Node → Nodes → Nodes

unfoldable pub address : Node → ℕ
address (iu_ref n iu) = n
address (compute n code out children param) = n

unfoldable pub is_bool_returning : Code → Bool
is_bool_returning eq = true
is_bool_returning neq = true
is_bool_returning less = true
is_bool_returning less_equal = true
is_bool_returning greater = true
is_bool_returning greater_equal = true
is_bool_returning str_equals = true
is_bool_returning and = true
is_bool_returning or = true
is_bool_returning in_list = true
is_bool_returning not_like_tokens = true
is_bool_returning _ = false

-- without a first type the source reads outside of the vector
unfoldable pub derive : Code → List IrType → Option IrType
unfolding is_bool_returning
derive code types = elim (is_bool_returning code) [
  | true ↦ some boolean
  | false ↦ elim types [ [] ↦ none | t ∷ ts ↦ some t ]
]

-- the state of `decayNode`
pub record Building : Type 0 where
  pub built : ℕ → Option Iu
  pub decay : Decay

-- the suboperator of a compute node
unfoldable pub expression_draft : Code → Iu → List ℕ → Option IrType → Draft
expression_draft code out source_ius none = record {
  ius = out.id ∷ [];
  source_ius = source_ius;
  kind = Kind.expression code;
}
expression_draft code out source_ius (some type) = record {
  ius = out.id ∷ [];
  source_ius = source_ius;
  kind = Kind.runtime_expression code type;
}

-- the entry of the map for a child, which `decayNode` has made
abbrev built_iu : ℕ → Building → Run Iu
built_iu n b = elim (b.built n) [ none ↦ throws | some iu ↦ ok iu ]

unfoldable mutual
  unfolding address expression_draft attach

  pub decay_node : Node → Building → Run Building
  decay_node (iu_ref n iu) b = elim (b.built n) [
    | some old ↦ ok b
    | none ↦ ok (record b { built = update b.built n (some iu) })
  ]
  decay_node (compute n code out children param) b = elim (b.built n) [
    | some old ↦ ok b
    | none ↦ do
      (source_ius, b') ← decay_children children (record b { built = update b.built n (some out) })
      decay ← attach (expression_draft code out source_ius param) b'.decay
      ok (record b' { decay = decay })
  ]

  -- the loop over the children, with the source IUs that it collects
  pub decay_children : Nodes → Building → Run (List ℕ × Building)
  decay_children nil b = ok ([], b)
  decay_children (cons node nodes) b = do
    b' ← decay_node node b
    iu ← built_iu (address node) b'
    (source_ius, b'') ← decay_children nodes b'
    ok (iu.id ∷ source_ius, b'')

-- the loop over `out` in `decay`
unfoldable pub decay_roots : Nodes → Building → Run Building
unfolding decay_node
decay_roots nil b = ok b
decay_roots (cons node nodes) b = decay_node node b >>= decay_roots nodes
