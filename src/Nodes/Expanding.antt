-- ===== src/Nodes/Expanding.antt =====
-- ParseXML on a node whose children are rooms (Monitor/Monitor/TitleNode.cpp).
use real_time_monitor_agent.Base.{
  ℕ, suc, ◌≡◌, refl, List, [], ◌∷◌, ◌++◌, none, some, true, false, ◌==◌, if◌then◌else◌, inl, inr,
  arith, Option-cases, Bool-cases,
}
use real_time_monitor_agent.Base.OrdMap.{lookup, erase, IsMap, lookup-erase, erase-IsMap}
use real_time_monitor_agent.Store.{update}
use real_time_monitor_agent.Nodes.{
  title_room, Node, Tree, gives, Entry, dynamic_node, parse_entries, has_id, kick, kickout,
  kickout_redundant_nodes, parse_xml,
}
use real_time_monitor_agent.Nodes.Parents.{AllLive, Parent, known, parses_entry}

parses_entries :
    (n : ℕ) (es : List Entry) (node : Node) (t : Tree)
    → Parent n node t
    → AllLive t.at node.nodes_order
    → (t' : Tree) × (node' : Node) × (parse_entries title_room n es t ≡ gives tt t')
      × Parent n node' t'
      × AllLive t'.at node'.nodes_order
      × ((id : ℕ)
          → known (lookup id node'.nodes)
            ≡ (if has_id id es then true else known (lookup id node.nodes)))
unfolding parse_entries has_id
parses_entries n [] node t v live = (t, node, refl, v, live, λ id. refl)
parses_entries n (e ∷ es) node t v live =
    let (t₁, node₁, first, g) = parses_entry n node t v live e in
    let (t₂, node₂, rest, v₂, live₂, keys) = parses_entries n es node₁ t₁ g.parent g.ordered in
    (t₂, node₂, ground (arith, first, rest), v₂, live₂, λ id. ground (arith, keys id, g.keys id))

-- The node and the tree once the entry `id` of the room `p` is kicked out.
abbrev without : ℕ → Node → Node
without id node = record node { nodes = erase id node.nodes }

abbrev kicked : ℕ → ℕ → ℕ → Node → Tree → Tree
kicked n id p node t = record t {
  at = update (update t.at n (some (without id node))) p none;
  destoryed = t.destoryed ++ (p ∷ []);
}

module _ (n id p fuel : ℕ) (node : Node) (t : Tree) (v : Parent n node t)
    (found : lookup id node.nodes ≡ some p) where
  kick-kicked : kick (suc fuel) n id p t ≡ gives tt (kicked n id p node t)
  unfolding kick
  kick-kicked = let (c, h, room, ne) = v.child id p found in ground (arith, v.here, h, room, ne)

  kicked-Parent : Parent n (without id node) (kicked n id p node t)
  kicked-Parent =
      let (c, h, room, ne) = v.child id p found in
      record {
        here = ground (arith, ne);
        keyed = erase-IsMap id node.nodes v.keyed;
        fresh = λ q x. ground (arith, v.fresh q, v.fresh n, v.here);
        child = λ id' q x.
            let (d, at_q, kind, other) =
              v.child id' q (ground (arith, x, lookup-erase id id' node.nodes v.keyed)) in
            (
              d,
              ground (
                arith,
                at_q,
                other,
                x,
                found,
                lookup-erase id id' node.nodes v.keyed,
                v.apart id id' p,
              ),
              kind,
              other,
            );
        apart = λ id' id'' q x y. ground (
          arith,
          lookup-erase id id' node.nodes v.keyed,
          lookup-erase id id'' node.nodes v.keyed,
          v.apart id' id'' q,
        );
      }

-- What the loop over the entries `m` leaves.
pub record Kicked (n : ℕ) (es : List Entry) (m : List (ℕ × ℕ)) (node node' : Node) (t t' : Tree)
    : Type 0 where
  pub parent : Parent n node' t'
  pub order : node'.nodes_order ≡ node.nodes_order
  pub kind : node'.node_type ≡ node.node_type
  pub stays : (id : ℕ) → known (lookup id m) ≡ false → lookup id node'.nodes ≡ lookup id node.nodes
  pub kept : (id : ℕ) → has_id id es ≡ true → lookup id node'.nodes ≡ lookup id node.nodes
  pub gone :
      (id p : ℕ)
      → lookup id m ≡ some p
      → has_id id es ≡ false
      → (lookup id node'.nodes ≡ none) × (t'.at p ≡ none)
  pub empty : (p : ℕ) → t.at p ≡ none → t'.at p ≡ none

module _ (n fuel : ℕ) (es : List Entry) where
  pub kickout-Kicked :
      (m : List (ℕ × ℕ)) (node : Node) (t : Tree)
      → Parent n node t
      → IsMap m
      → ((id p : ℕ) → lookup id m ≡ some p → lookup id node.nodes ≡ some p)
      → (t' : Tree) × (node' : Node) × (kickout (suc fuel) n es m t ≡ gives tt t')
        × Kicked n es m node node' t t'
  unfolding kickout lookup
  kickout-Kicked [] node t v keyed within = (
    t,
    node,
    refl,
    record {
      parent = v;
      order = refl;
      kind = refl;
      stays = λ id x. refl;
      kept = λ id x. refl;
      gone = λ id p x y. absurd (ground arith);
      empty = λ p x. x;
    },
  )
  kickout-Kicked ((id, p) ∷ m) node t v (absent, keyed) within = elim (Bool-cases (has_id id es)) [
    | inl keep ↦
        let (t', node', e, k) =
          kickout-Kicked m node t v keyed λ id' q x. ground (arith, within id' q, absent) in
        (
          t',
          node',
          ground (arith, keep, e),
          record {
            parent = k.parent;
            order = k.order;
            kind = k.kind;
            stays = λ id' x. ground (arith, k.stays id');
            kept = k.kept;
            gone = λ id' q x y. ground (arith, k.gone id' q, keep);
            empty = k.empty;
          },
        )
    | inr leave ↦
        let found : lookup id node.nodes ≡ some p = within id p (ground arith) in
        let t₁ : Tree = kicked n id p node t in
        let (t', node', e, k) =
          kickout-Kicked m (without id node) t₁ (kicked-Parent n id p fuel node t v found) keyed
            λ id' q x.
              ground (arith, within id' q, absent, lookup-erase id id' node.nodes v.keyed) in
        (
          t',
          node',
          ground (arith, leave, e, kick-kicked n id p fuel node t v found),
          record {
            parent = k.parent;
            order = k.order;
            kind = k.kind;
            stays = λ id' x. ground (arith, k.stays id', lookup-erase id id' node.nodes v.keyed);
            kept =
                λ id' x. ground (arith, k.kept id', lookup-erase id id' node.nodes v.keyed, leave);
            gone = λ id' q x y. elim (Bool-cases (id == id')) [
              | inl same ↦ (
                ground (arith, same, absent, k.stays id', lookup-erase id id' node.nodes v.keyed),
                ground (arith, x, same, k.empty q),
              )
              | inr differs ↦ k.gone id' q (ground (arith, x, differs)) y
            ];
            empty = λ q x. k.empty q (ground (arith, x, v.here));
          },
        )
  ]

-- ParseXML of a dynamic node returns, on a node whose entries are distinct rooms that exist and in whose
-- set of orders no deleted node has been left (KickoutRedundantNodes leaves those that it deletes, so
-- this covers no call after one that kicked a node out): then the entries of the node are exactly those
-- of the document, and again distinct rooms that exist.
pub parse_xml-keys :
    (n fuel : ℕ) (es : List Entry) (node : Node) (t : Tree)
    → Parent n node t
    → AllLive t.at node.nodes_order
    → (t' : Tree) × (node' : Node) × (parse_xml (suc fuel) n (dynamic_node es) t ≡ gives tt t')
      × Parent n node' t'
      × ((id : ℕ) → known (lookup id node'.nodes) ≡ has_id id es)
unfolding parse_xml kickout_redundant_nodes
parse_xml-keys n fuel es node t v live =
    let (t₁, node₁, e₁, v₁, live₁, keys) = parses_entries n es node t v live in
    let (t₂, node₂, e₂, k) =
      kickout-Kicked n fuel es node₁.nodes node₁ t₁ v₁ v₁.keyed (λ id p x. x) in
    (
      t₂,
      node₂,
      ground (arith, e₁, e₂, v₁.here),
      k.parent,
      λ id. elim (Bool-cases (has_id id es)) [
        | inl listed ↦ ground (arith, listed, k.kept id, keys id)
        | inr missing ↦ elim (Option-cases (lookup id node₁.nodes)) [
          | inl nothing ↦ ground (arith, missing, nothing, k.stays id)
          | inr (p, found) ↦ ground (arith, missing, k.gone id p found)
        ]
      ],
    )
