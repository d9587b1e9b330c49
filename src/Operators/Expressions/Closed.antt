-- ===== src/Operators/Expressions/Closed.antt =====
-- algebra/ExpressionOp.cpp: the suboperators of an expression read what is provided in front of them.
use inkfuse.Base.{
  ℕ, ◌+◌, ◌≤◌, ◌<◌, ◌≡◌, refl, sym, ap, subst, ◌∙◌, inl, inr, Bool, true, false, Option, none, some,
  List, [], ◌∷◌, ◌++◌, arith, ltb, ◌==◌, ==→eq, eq→==, Bool-cases, Option-cases, update,
}
use inkfuse.Runtime.Run.{ok, ◌>>=◌}
use inkfuse.Algebra.Repipe.{occurs}
use inkfuse.Operators.Types.{IrType, Iu}
use inkfuse.Operators.Attach.{Code, Decay, attach}
use inkfuse.Operators.Closed.{
  Within, Within-refl, Within-trans, Within-append_left, occurs-Within, occurs-append_right,
}
use inkfuse.Operators.Attached.{IsUnderWay, attach-IsUnderWay}
use inkfuse.Operators.Accepted.{IsNoRuntimeCast, expression_draft-accepted}
use inkfuse.Operators.Expressions.{
  Node, iu_ref, compute, Nodes, nil, cons, address, Building, expression_draft, decay_node,
  decay_children, decay_roots,
}
use inkfuse.Operators.Expressions.Built.{
  iu_of, root_ius, update_here, update_apart, drafted, decay_node-old, decay_node-ref,
  decay_node-compute, IsWellBuilt, AreWellBuilt,
}

module _ (iu_at : ℕ → Iu) where
  mutual
    unfolding IsWellBuilt

    IsWellBuilt-Within :
        (p q : List ℕ) (node : Node)
        → Within p q
        → IsWellBuilt iu_at p node
        → IsWellBuilt iu_at q node
    IsWellBuilt-Within p q (iu_ref n iu) w (l, h) = (l, occurs-Within iu.id p q w h)
    IsWellBuilt-Within p q (compute n code out children param) w (l, fine, h) =
        (l, fine, AreWellBuilt-Within p q n children w h)

    AreWellBuilt-Within :
        (p q : List ℕ) (n : ℕ) (nodes : Nodes)
        → Within p q
        → AreWellBuilt iu_at p n nodes
        → AreWellBuilt iu_at q n nodes
    AreWellBuilt-Within p q n nil w h = tt
    AreWellBuilt-Within p q n (cons node nodes) w (l, h, hs) =
        (l, IsWellBuilt-Within p q node w h, AreWellBuilt-Within p q n nodes w hs)

  -- The IUs that are kept for addresses below `n` are provided.
  abbrev Known : ℕ → Building → List ℕ → Type 0
  Known n b visible =
      (k : ℕ) (iu : Iu)
      → k < n
      → b.built k ≡ some iu
      → (occurs iu.id visible ≡ true) × (iu ≡ iu_at k)

  -- A part of the decay, which adds entries for addresses below `n`.
  record Grows (b : Building) (visible : List ℕ) (n : ℕ) (b' : Building) : Type 0 where
    visible' : List ℕ
    sink : Bool
    under_way : IsUnderWay b'.decay visible' sink
    more : Within visible visible'
    unchanged : (k : ℕ) → n ≤ k → b'.built k ≡ b.built k
    known : Known n b' visible'

  Grows-Known :
      (b : Building) (visible : List ℕ) (n m : ℕ) (b' : Building) (g : Grows b visible n b')
      → Known m b visible
      → Known m b' g.visible'
  Grows-Known b visible n m b' g known k iu l e = elim (Bool-cases (ltb k n)) [
    | inl low ↦ g.known k iu (ground (arith, low)) e
    | inr high ↦
        let (h, same) = known k iu l (sym (g.unchanged k (ground (arith, high))) ∙ e) in
        (occurs-Within iu.id visible g.visible' g.more h, same)
  ]

  Grows-none :
      (b : Building) (visible : List ℕ) (sink : Bool) (n : ℕ)
      → IsUnderWay b.decay visible sink
      → Known n b visible
      → Grows b visible n b
  Grows-none b visible sink n u known = record {
    visible' = visible;
    sink = sink;
    under_way = u;
    more = Within-refl visible;
    unchanged = λ k l. refl;
    known = known;
  }

  -- An entry for an IU that is provided.
  Known-update :
      (n : ℕ) (iu : Iu) (b : Building) (visible : List ℕ)
      → iu ≡ iu_at n
      → occurs iu.id visible ≡ true
      → Known n b visible
      → Known (n + 1) (record b { built = update b.built n (some iu) }) visible
  Known-update n iu b visible label h known k iu' l e = elim (Bool-cases (k == n)) [
    | inl here ↦
        let same : some iu ≡ some iu' =
          sym (ap (update b.built n (some iu)) (==→eq k n here) ∙ update_here b.built n iu) ∙ e in
        let iu_same : iu ≡ iu' = cc same in
        (
          subst (λ (i : Iu). occurs i.id visible ≡ true) iu_same h,
          sym iu_same ∙ label ∙ ap iu_at (sym (==→eq k n here)),
        )
    | inr apart ↦
        known k iu' (ground (arith, l, apart)) (sym (update_apart b.built n k iu apart) ∙ e)
  ]

  -- Below `n`, an entry for `n` changes nothing.
  Known-below :
      (n : ℕ) (iu : Iu) (b : Building) (visible : List ℕ)
      → Known n b visible
      → Known n (record b { built = update b.built n (some iu) }) visible
  Known-below n iu b visible known k iu' l e =
      let apart : (k == n) ≡ false = ground (arith, l) in
      known k iu' l (sym (update_apart b.built n k iu apart) ∙ e)

  Known-le :
      (n m : ℕ) (b : Building) (visible : List ℕ) → n ≤ m → Known m b visible → Known n b visible
  Known-le n m b visible l known k iu h e = known k iu (omega (arith, l, h)) e

  -- The suboperator of a node behind those of its children.
  Grows-compute :
      (n : ℕ) (code : Code) (out : Iu) (param : Option IrType) (b b' : Building)
      (visible source_ius : List ℕ)
      (g : Grows (record b { built = update b.built n (some out) }) visible n b')
      → out ≡ iu_at n
      → Within source_ius g.visible'
      → IsNoRuntimeCast code param
      → (s : Decay) × (attach (expression_draft code out source_ius param) b'.decay ≡ ok s)
        × ((record b' { decay = s }).built n ≡ some out)
        × Grows b visible (n + 1) (record b' { decay = s })
  unfolding occurs
  Grows-compute n code out param b b' visible source_ius g label w fine =
      let d = expression_draft code out source_ius param in
      let (provides, reads) = drafted code out source_ius param in
      let (s, r, u) =
        attach-IsUnderWay d b'.decay g.visible' g.sink g.under_way
          (subst (λ v. Within v g.visible') (sym reads) w)
          (expression_draft-accepted code out source_ius param fine) in
      let more : Within g.visible' (g.visible' ++ d.ius) =
        Within-append_left g.visible' g.visible' d.ius (Within-refl g.visible') in
      let out_here : occurs out.id (g.visible' ++ d.ius) ≡ true =
        occurs-append_right out.id g.visible' d.ius (
          subst (λ v. occurs out.id v ≡ true) (sym provides)
            (ground (arith, eq→== out.id out.id refl))) in
      let built : b'.built n ≡ some out = g.unchanged n (omega arith) ∙ update_here b.built n out in
      (
        s,
        r,
        built,
        record {
          visible' = g.visible' ++ d.ius;
          sink = _;
          under_way = u;
          more = Within-trans visible g.visible' (g.visible' ++ d.ius) g.more more;
          unchanged = λ k l.
              g.unchanged k (omega (arith, l)) ∙ update_apart b.built n k out (ground (arith, l));
          known = λ k iu l e. elim (Bool-cases (k == n)) [
            | inl here ↦
                let same : some out ≡ some iu = sym (ap b'.built (==→eq k n here) ∙ built) ∙ e in
                let iu_same : out ≡ iu = cc same in
                (
                  subst (λ (i : Iu). occurs i.id (g.visible' ++ d.ius) ≡ true) iu_same out_here,
                  sym iu_same ∙ label ∙ ap iu_at (sym (==→eq k n here)),
                )
            | inr apart ↦
                let (h, same) = g.known k iu (ground (arith, l, apart)) e in
                (occurs-Within iu.id g.visible' (g.visible' ++ d.ius) more h, same)
          ];
        },
      )

  -- A child, and then the others.
  Grows-children :
      (m n : ℕ) (b b' b'' : Building) (visible : List ℕ) (iu : ℕ) (source_ius : List ℕ)
      (g : Grows b visible m b') (g' : Grows b' g.visible' n b'')
      → m ≤ n
      → occurs iu g.visible' ≡ true
      → Within source_ius g'.visible'
      → (g'' : Grows b visible n b'') × Within (iu ∷ source_ius) g''.visible'
  Grows-children m n b b' b'' visible iu source_ius g g' l h w = (
    record {
      visible' = g'.visible';
      sink = g'.sink;
      under_way = g'.under_way;
      more = Within-trans visible g.visible' g'.visible' g.more g'.more;
      unchanged = λ k h'. g'.unchanged k h' ∙ g.unchanged k (omega (arith, l, h'));
      known = g'.known;
    },
    (occurs-Within iu g.visible' g'.visible' g'.more h, w),
  )

  mutual
    unfolding IsWellBuilt decay_node

    decay_node-Grows :
        (node : Node) (b : Building) (visible : List ℕ) (sink : Bool)
        → IsUnderWay b.decay visible sink
        → IsWellBuilt iu_at visible node
        → Known (address node + 1) b visible
        → (b' : Building) × (iu : Iu) × (decay_node node b ≡ ok b')
          × (b'.built (address node) ≡ some iu)
          × Grows b visible (address node + 1) b'
    decay_node-Grows (iu_ref n iu) b visible sink u (label, h) known =
        elim (Option-cases (b.built n)) [
          | inr (old, e) ↦ (
            b,
            old,
            decay_node-old (iu_ref n iu) b old e,
            e,
            Grows-none b visible sink (n + 1) u known,
          )
          | inl e ↦
              let b' : Building = record b { built = update b.built n (some iu) } in
              (
                b',
                iu,
                decay_node-ref n iu b e,
                update_here b.built n iu,
                record {
                  visible' = visible;
                  sink = sink;
                  under_way = u;
                  more = Within-refl visible;
                  unchanged = λ k l. update_apart b.built n k iu (ground (arith, l));
                  known =
                      Known-update n iu b visible label h
                        (Known-le n (n + 1) b visible (omega arith) known);
                },
              )
        ]
    decay_node-Grows (compute n code out children param) b visible sink u (label, fine, h) known =
        elim (Option-cases (b.built n)) [
          | inr (old, e) ↦ (
            b,
            old,
            decay_node-old (compute n code out children param) b old e,
            e,
            Grows-none b visible sink (n + 1) u known,
          )
          | inl e ↦
              let b₁ : Building = record b { built = update b.built n (some out) } in
              let known₁ =
                Known-below n out b visible (Known-le n (n + 1) b visible (omega arith) known) in
              let (source_ius, b₂, r, (g, w)) =
                decay_children-Grows children n b₁ visible sink u h known₁ in
              let (s, r', built, g') =
                Grows-compute n code out param b b₂ visible source_ius g label w fine in
              (
                record b₂ { decay = s },
                out,
                decay_node-compute n code out children param b b₂ source_ius s e r r',
                built,
                g',
              )
        ]

    decay_children-Grows :
        (nodes : Nodes) (n : ℕ) (b : Building) (visible : List ℕ) (sink : Bool)
        → IsUnderWay b.decay visible sink
        → AreWellBuilt iu_at visible n nodes
        → Known n b visible
        → (source_ius : List ℕ) × (b' : Building) × (decay_children nodes b ≡ ok (source_ius, b'))
          × ((g : Grows b visible n b') × Within source_ius g.visible')
    decay_children-Grows nil n b visible sink u h known =
        ([], b, refl, (Grows-none b visible sink n u known, tt))
    decay_children-Grows (cons node nodes) n b visible sink u (l, h, hs) known =
        let (b₁, iu, r, built, g₁) =
          decay_node-Grows node b visible sink u h
            (Known-le (address node + 1) n b visible (omega (arith, l)) known) in
        let (ids, b₂, r', (g', w)) =
          decay_children-Grows nodes n b₁ g₁.visible' g₁.sink g₁.under_way
            (AreWellBuilt-Within visible g₁.visible' n nodes g₁.more hs)
            (Grows-Known b visible (address node + 1) n b₁ g₁ known) in
        (
          iu.id ∷ ids,
          b₂,
          rw (r, built, r', ◌>>=◌) refl,
          Grows-children (address node + 1) n b b₁ b₂ visible iu.id ids g₁ g' (omega (arith, l))
              (g₁.known (address node) iu (omega arith) built).0 w,
        )

  -- The roots of an expression.
  abbrev pub RootsAreWellBuilt : List ℕ → Nodes → Type 0
  RootsAreWellBuilt visible nil = Unit
  RootsAreWellBuilt visible (cons node nodes) =
      IsWellBuilt iu_at visible node × RootsAreWellBuilt visible nodes

  pub RootsAreWellBuilt-Within :
      (p q : List ℕ) (nodes : Nodes)
      → Within p q
      → RootsAreWellBuilt p nodes
      → RootsAreWellBuilt q nodes
  RootsAreWellBuilt-Within p q nil w h = tt
  RootsAreWellBuilt-Within p q (cons node nodes) w (h, hs) =
      (IsWellBuilt-Within p q node w h, RootsAreWellBuilt-Within p q nodes w hs)

  abbrev AllKnown : Building → List ℕ → Type 0
  AllKnown b visible =
      (k : ℕ) (iu : Iu) → b.built k ≡ some iu → (occurs iu.id visible ≡ true) × (iu ≡ iu_at k)

  label_of :
      (visible : List ℕ) (node : Node)
      → IsWellBuilt iu_at visible node
      → iu_of node ≡ iu_at (address node)
  unfolding IsWellBuilt address
  label_of visible (iu_ref n iu) (label, _) = label
  label_of visible (compute n code out children param) (label, _, _) = label

  roots-IsUnderWay :
      (nodes : Nodes) (b : Building) (visible : List ℕ) (sink : Bool)
      → IsUnderWay b.decay visible sink
      → RootsAreWellBuilt visible nodes
      → AllKnown b visible
      → (b' : Building) × (visible' : List ℕ) × (sink' : Bool) × (decay_roots nodes b ≡ ok b')
        × IsUnderWay b'.decay visible' sink'
        × Within visible visible'
        × Within (root_ius nodes) visible'
  unfolding decay_roots
  roots-IsUnderWay nil b visible sink u h known =
      (b, visible, sink, refl, u, Within-refl visible, tt)
  roots-IsUnderWay (cons node nodes) b visible sink u (h, hs) known =
      let (b₁, iu, r, built, g) =
        decay_node-Grows node b visible sink u h (λ k iu l e. known k iu e) in
      let known₁ : AllKnown b₁ g.visible' = λ k iu e.
        Grows-Known b visible (address node + 1) (k + 1) b₁ g (λ k' iu' l e'. known k' iu' e') k iu
          (omega arith) e in
      let (here, same) = known₁ (address node) iu built in
      let iu_same : iu ≡ iu_of node = same ∙ sym (label_of visible node h) in
      let (b₂, visible', sink', r', u', w, roots) =
        roots-IsUnderWay nodes b₁ g.visible' g.sink g.under_way
          (RootsAreWellBuilt-Within visible g.visible' nodes g.more hs) known₁ in
      (
        b₂,
        visible',
        sink',
        rw (r, ◌>>=◌) r',
        u',
        Within-trans visible g.visible' visible' g.more w,
        (
          occurs-Within (iu_of node).id g.visible' visible' w
              (subst (λ (i : Iu). occurs i.id g.visible' ≡ true) iu_same here),
          roots,
        ),
      )

  -- The nodes of an expression decay behind the suboperators that provide what they refer to, and
  -- the IUs of the roots are provided afterwards.
  pub decay_roots-IsUnderWay :
      (nodes : Nodes) (s : Decay) (visible : List ℕ) (sink : Bool)
      → IsUnderWay s visible sink
      → RootsAreWellBuilt visible nodes
      → (b : Building) × (visible' : List ℕ) × (sink' : Bool) × (decay_roots nodes
            (record { built = λ _. none; decay = s })
          ≡ ok b)
        × IsUnderWay b.decay visible' sink'
        × Within visible visible'
        × Within (root_ius nodes) visible'
  decay_roots-IsUnderWay nodes s visible sink u h =
      let start : Building = record { built = λ _. none; decay = s } in
      roots-IsUnderWay nodes start visible sink u h (λ k iu e. cc)
