-- ===== src/Nodes/Parents.antt =====
-- A node whose children are rooms, and what adding and updating a child keeps of it
-- (Monitor/Monitor/Node.cpp).
use real_time_monitor_agent.Base.{
  ℕ, suc, ◌≤◌, ◌≡◌, ◌≢◌, refl, List, [], ◌∷◌, Option, none, some, Bool, true, false, ◌==◌, ltb,
  if◌then◌else◌, inl, inr, arith, Option-cases, Bool-cases,
}
use real_time_monitor_agent.Base.OrdMap.{lookup, insert, IsMap, lookup-insert, insert-IsMap}
use real_time_monitor_agent.Rooms.{rank32}
use real_time_monitor_agent.Store.{update}
use real_time_monitor_agent.Nodes.{
  title_room, Node, Tree, gives, insert_order, Entry, new_node, parse_entry,
}

abbrev pub IsLive : (ℕ → Option Node) → ℕ → Type 0
IsLive at p = (node : Node) × (at p ≡ some node)

abbrev pub AllLive : (ℕ → Option Node) → List ℕ → Type 0
AllLive at [] = Unit {0}
AllLive at (p ∷ ps) = IsLive at p × AllLive at ps

-- The node at `n`: its entries are distinct rooms, and the addresses not yet handed out hold no node.
pub record Parent (n : ℕ) (node : Node) (t : Tree) : Type 0 where
  pub here : t.at n ≡ some node
  pub keyed : IsMap node.nodes
  pub fresh : (p : ℕ) → t.next_node ≤ p → t.at p ≡ none
  pub child :
      (id p : ℕ)
      → lookup id node.nodes ≡ some p
      → (c : Node) × (t.at p ≡ some c) × (c.node_type ≡ title_room) × (p ≢ n)
  pub apart :
      (id id' p : ℕ) → lookup id node.nodes ≡ some p → lookup id' node.nodes ≡ some p → id ≡ id'

-- Whether a map has a key.
abbrev pub known : Option ℕ → Bool
known none = false
known (some p) = true

insert_order-AllLive :
    (at : ℕ → Option Node) (order p : ℕ) (qs : List ℕ)
    → IsLive at p
    → AllLive at qs
    → (l : List ℕ) × (insert_order at order p qs ≡ some l) × AllLive at l
unfolding insert_order
insert_order-AllLive at order p [] h v = (p ∷ [], refl, (h, tt))
insert_order-AllLive at order p (q ∷ qs) h ((c, live), v) =
    let (l, e, v') = insert_order-AllLive at order p qs h v in
    elim (Bool-cases (ltb order c.order)) [
      | inl before ↦ (p ∷ (q ∷ qs), ground arith, (h, ((c, live), v)))
      | inr not_before ↦ elim (Bool-cases (ltb c.order order)) [
        | inl behind ↦ (q ∷ l, ground (arith, e), ((c, live), v'))
        | inr same ↦ (q ∷ qs, ground arith, ((c, live), v))
      ]
    ]

update-AllLive :
    (at : ℕ → Option Node) (p : ℕ) (node : Node) (qs : List ℕ)
    → AllLive at qs
    → AllLive (update at p (some node)) qs
update-AllLive at p node [] v = tt
update-AllLive at p node (q ∷ qs) ((c, live), v) =
    ((if p == q then node else c, ground arith), update-AllLive at p node qs v)

-- What one element leaves.
pub record Grew (n : ℕ) (e : Entry) (node node' : Node) (t' : Tree) : Type 0 where
  pub parent : Parent n node' t'
  pub ordered : AllLive t'.at node'.nodes_order
  pub keys :
      (id : ℕ)
      → known (lookup id node'.nodes) ≡ (if e.id == id then true else known (lookup id node.nodes))

module _ (n : ℕ) (node : Node) (t : Tree) (v : Parent n node t)
    (live : AllLive t.at node.nodes_order) where
  updates :
      (e : Entry) (p : ℕ) (c : Node)
      → lookup e.id node.nodes ≡ some p
      → t.at p ≡ some c
      → c.node_type ≡ title_room
      → p ≢ n
      → Grew n e node node (record t {
        at = update t.at p (some (record c { order = e.order; usercount = e.usercount }));
      })
  updates e p c found h room ne = record {
    parent = record {
      here = ground (arith, v.here);
      keyed = v.keyed;
      fresh = λ q x. ground (arith, v.fresh q, v.fresh p);
      child = λ id q x.
          let (d, at_q, kind, other) = v.child id q x in
          (
            if p == q then record c { order = e.order; usercount = e.usercount } else d,
            ground (arith, at_q),
            ground (arith, kind, room),
            other,
          );
      apart = v.apart;
    };
    ordered = update-AllLive t.at p _ node.nodes_order live;
    keys = λ id. ground (arith, found);
  }

  -- The node that is made for `e`.
  abbrev born : Entry → Node
  born e = record {
    id = e.id;
    order = e.order;
    usercount = e.usercount;
    node_type = title_room;
    nodes = [];
    nodes_order = [];
  }

  with_born : Entry → ℕ → Option Node
  with_born e = update t.at t.next_node (some (born e))

  abbrev with_child : Entry → List ℕ → Node
  with_child e l = record node {
    nodes = insert rank32 e.id t.next_node node.nodes;
    nodes_order = l;
  }

  new_is_other : t.next_node ≢ n
  new_is_other e = ground (arith, v.fresh n, v.here, e)

  adds_child :
      (e : Entry) (l : List ℕ)
      → insert_order (with_born e) e.order t.next_node node.nodes_order ≡ some l
      → new_node title_room n e t
        ≡ gives tt (record t {
          at = update (with_born e) n (some (with_child e l));
          next_node = suc t.next_node;
        })
  unfolding new_node with_born
  adds_child e l inserted = ground (arith, inserted, v.here, new_is_other)

  grows :
      (e : Entry) (l : List ℕ)
      → lookup e.id node.nodes ≡ none
      → AllLive (with_born e) l
      → Grew n e node (with_child e l) (record t {
        at = update (with_born e) n (some (with_child e l));
        next_node = suc t.next_node;
      })
  unfolding with_born
  grows e l missing v' = record {
    parent = record {
      here = ground arith;
      keyed = insert-IsMap rank32 e.id t.next_node node.nodes missing v.keyed;
      fresh = λ q x. ground (arith, v.fresh q, v.fresh n, v.here);
      child = λ id q x. elim (Bool-cases (e.id == id)) [
        | inl same ↦ (
          born e,
          ground (arith, lookup-insert rank32 e.id id t.next_node node.nodes missing, new_is_other),
          refl,
          ground (arith, lookup-insert rank32 e.id id t.next_node node.nodes missing, new_is_other),
        )
        | inr differs ↦
            let (d, at_q, kind, other) =
              v.child id q
                (ground (arith, lookup-insert rank32 e.id id t.next_node node.nodes missing)) in
            (d, ground (arith, v.fresh q), kind, other)
      ];
      apart = λ id id' q x y. ground (
        arith,
        lookup-insert rank32 e.id id t.next_node node.nodes missing,
        lookup-insert rank32 e.id id' t.next_node node.nodes missing,
        v.apart id id' q,
        old_is_other id q,
        old_is_other id' q,
      );
    };
    ordered = update-AllLive (with_born e) n _ l v';
    keys = λ id. ground (arith, lookup-insert rank32 e.id id t.next_node node.nodes missing);
  }
    where
      old_is_other : (id q : ℕ) → lookup id node.nodes ≡ some q → q ≢ t.next_node
      old_is_other id q x same =
          let (d, at_q, kind, other) = v.child id q x in ground (arith, v.fresh q, at_q, same)

  -- The body of the loop of ParseXML on one element returns.
  pub parses_entry :
      (e : Entry)
      → (t' : Tree) × (node' : Node) × (parse_entry title_room n e t ≡ gives tt t')
        × Grew n e node node' t'
  unfolding parse_entry
  parses_entry e = elim (Option-cases (lookup e.id node.nodes)) [
    | inr (p, found) ↦
        let (c, h, room, ne) = v.child e.id p found in
        (
          record t {
            at = update t.at p (some (record c { order = e.order; usercount = e.usercount }));
          },
          node,
          ground (arith, v.here, found, h),
          updates e p c found h room ne,
        )
    | inl missing ↦
        let live' : AllLive (with_born e) node.nodes_order =
          unfold with_born in update-AllLive t.at t.next_node (born e) node.nodes_order live in
        let (l, inserted, v') =
          insert_order-AllLive (with_born e) e.order t.next_node node.nodes_order
            (born e, unfold with_born in (ground arith)) live' in
        (
          record t {
            at = update (with_born e) n (some (with_child e l));
            next_node = suc t.next_node;
          },
          with_child e l,
          ground (arith, v.here, missing, adds_child e l inserted),
          grows e l missing v',
        )
  ]
