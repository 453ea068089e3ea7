-- ===== src/Nodes.antt =====
-- The tree of the nodes that lead to the rooms (Monitor/Monitor/Node.cpp and TitleNode.cpp). The items of
-- the tree control, which show the nodes, and the names are left out.
pub mod Parents
pub mod Expanding
pub mod Titles
pub mod Examples
use mathlib.Core.Option
use real_time_monitor_agent.Base.{
  ℕ, zero, suc, ◌≡◌, List, [], ◌∷◌, ◌++◌, Option, none, some, Bool, true, false, ◌==◌, ltb,
  if◌then◌else◌,
}
use real_time_monitor_agent.Base.OrdMap.{lookup, insert, erase}
use real_time_monitor_agent.Store.{update}
use real_time_monitor_agent.Rooms.{rank32}

pub data NodeType : Type 0 where
  title title_node title_room title_user : NodeType

-- `nodes_` and `nodes_order_`, a set of pointers that compares the orders of what they point to.
pub record Node : Type 0 where
  pub id : ℕ
  pub order : ℕ
  pub usercount : ℕ
  pub node_type : NodeType
  pub nodes : List (ℕ × ℕ)
  pub nodes_order : List ℕ

-- The nodes behind their addresses, and the rooms whose OnDestory was called.
pub record Tree : Type 0 where
  pub at : ℕ → Option Node
  pub next_node : ℕ
  pub destoryed : List ℕ

-- `dangling`: a deleted node is used. `endless`: the fuel of the recursion ran out.
pub data Grown (A : Type 0) : Type 0 where
  gives : A → Tree → Grown A
  dangling : Grown A
  endless : Grown A

abbrev pub T : Type 0 → Type 0
T A = Tree → Grown A

infixl 5 ◌>>=◌ ◌>>◌
abbrev pub ◌>>=◌ : {A B : Type 0} → T A → (A → T B) → T B
◌>>=◌ m f t = elim (m t) [ gives a t' ↦ f a t' | dangling ↦ dangling | endless ↦ endless ]

abbrev pub ◌>>◌ : {A B : Type 0} → T A → T B → T B
m >> k = m >>= λ _. k

abbrev pub done : T (Unit {0})
done t = gives tt t

abbrev pub node_at : ℕ → T Node
node_at p t = elim (t.at p) [ some node ↦ gives node t | none ↦ dangling ]

abbrev pub put_node : ℕ → Node → T (Unit {0})
put_node p node t = gives tt (record t { at = update t.at p (some node) })

abbrev pub delete_node : ℕ → T (Unit {0})
delete_node p t = gives tt (record t { at = update t.at p none })

-- Update.
unfoldable pub update_node : ℕ → ℕ → ℕ → T (Unit {0})
update_node p order usercount = do
  node ← node_at p
  put_node p (record node { order = order; usercount = usercount })

-- The place of a node in the set; one of the same order keeps its place and the new one stays out.
unfoldable pub insert_order : (ℕ → Option Node) → ℕ → ℕ → List ℕ → Option (List ℕ)
insert_order at order p [] = some (p ∷ [])
insert_order at order p (q ∷ qs) =
    let later = Option.map (λ (rest : List ℕ). q ∷ rest) (insert_order at order p qs) in
    elim (at q) [
      | none ↦ none
      | some node ↦
          if ltb order node.order
          then some (p ∷ (q ∷ qs))
          else if ltb node.order order
          then later
          else some (q ∷ qs)
    ]

-- AddNodeOrRoom of `n` with the node at `p`.
unfoldable pub add_node_or_room : ℕ → ℕ → ℕ → T (Unit {0})
unfolding insert_order
add_node_or_room n id p = do
  node ← node_at n
  child ← node_at p
  (λ t. elim (insert_order t.at child.order p node.nodes_order) [
    | none ↦ dangling
    | some order ↦
        put_node n (record node { nodes = insert rank32 id p node.nodes; nodes_order = order }) t
  ])

unfoldable pub del_node_or_room : ℕ → ℕ → T (Unit {0})
del_node_or_room n id = do
  node ← node_at n
  elim (lookup id node.nodes) [
    | none ↦ done
    | some p ↦ do put_node n (record node { nodes = erase id node.nodes }); node_at p; delete_node p
  ]

unfoldable pub delete_all : List (ℕ × ℕ) → T (Unit {0})
delete_all [] t = gives tt t
delete_all ((id, p) ∷ m) t = (do node_at p; delete_node p; delete_all m) t

unfoldable pub del_all : ℕ → T (Unit {0})
unfolding delete_all
del_all n = do
  node ← node_at n
  delete_all node.nodes
  put_node n (record node { nodes = []; nodes_order = [] })

-- The loop of OnDestory over the entries, where `destory` is the call of OnDestory of an entry.
unfoldable pub destory_all : (ℕ → T (Unit {0})) → List (ℕ × ℕ) → T (Unit {0})
destory_all destory [] t = gives tt t
destory_all destory ((id, p) ∷ m) t = (do destory p; delete_node p; destory_all destory m) t

-- The virtual method OnDestory, as far as the tree goes: the rooms on which it is called are noted in
-- order, and `destory_each` of Traverse does to them what TitleRoom::OnDestory does.
unfoldable pub on_destory_node : ℕ → ℕ → T (Unit {0})
unfolding destory_all
on_destory_node zero p t = endless
on_destory_node (suc fuel) p t =
    (do
      node ← node_at p
      elim node.node_type [
        | title_room ↦ (λ t'. gives tt (record t' { destoryed = t'.destoryed ++ (p ∷ []) }))
        | title_node ↦ do
          destory_all (on_destory_node fuel) node.nodes
          put_node p (record node { nodes = []; nodes_order = [] })
        | _ ↦ done
      ])
      t

-- An element of the XML document, with the numbers that atoi makes of its attributes.
pub record Entry : Type 0 where
  pub id : ℕ
  pub order : ℕ
  pub usercount : ℕ

-- The element that the document begins with: static_node, dynamic_node, or another one.
pub data Document : Type 0 where
  static_node dynamic_node : List Entry → Document
  other : Document

-- `new TitleNode` or `new TitleRoom`, added to `n`.
unfoldable pub new_node : NodeType → ℕ → Entry → T (Unit {0})
unfolding add_node_or_room
new_node kind n e t = add_node_or_room n e.id t.next_node (record t {
  at = update t.at t.next_node (
      some (record {
        id = e.id;
        order = e.order;
        usercount = e.usercount;
        node_type = kind;
        nodes = [];
        nodes_order = [];
      }));
  next_node = suc t.next_node;
})

-- The loop over the elements of one kind, and its body.
unfoldable pub parse_entry : NodeType → ℕ → Entry → T (Unit {0})
unfolding update_node new_node
parse_entry kind n e = do
  node ← node_at n
  elim (lookup e.id node.nodes) [
    | some p ↦ update_node p e.order e.usercount
    | none ↦ new_node kind n e
  ]

unfoldable pub parse_entries : NodeType → ℕ → List Entry → T (Unit {0})
unfolding parse_entry
parse_entries kind n [] t = gives tt t
parse_entries kind n (e ∷ es) t = (do parse_entry kind n e; parse_entries kind n es) t

unfoldable pub has_id : ℕ → List Entry → Bool
has_id id [] = false
has_id id (e ∷ es) = let later = has_id id es in if e.id == id then true else later

-- The loop of KickoutRedundantNodes over the entries of `n`, and its body on an entry that is not kept.
unfoldable pub kick : ℕ → ℕ → ℕ → ℕ → T (Unit {0})
unfolding on_destory_node
kick fuel n id p = do
  node ← node_at n
  put_node n (record node { nodes = erase id node.nodes })
  on_destory_node fuel p
  delete_node p

unfoldable pub kickout : ℕ → ℕ → List Entry → List (ℕ × ℕ) → T (Unit {0})
unfolding has_id kick
kickout fuel n entries [] t = gives tt t
kickout fuel n entries ((id, p) ∷ m) t =
    (do if has_id id entries then done else kick fuel n id p; kickout fuel n entries m) t

unfoldable pub kickout_redundant_nodes : ℕ → ℕ → List Entry → T (Unit {0})
unfolding kickout
kickout_redundant_nodes fuel n entries = do node ← node_at n; kickout fuel n entries node.nodes

-- ParseXML of a document that loads.
unfoldable pub parse_xml : ℕ → ℕ → Document → T (Unit {0})
unfolding parse_entries kickout_redundant_nodes
parse_xml fuel n (static_node es) = do
  parse_entries title_node n es
  kickout_redundant_nodes fuel n es
parse_xml fuel n (dynamic_node es) = do
  parse_entries title_room n es
  kickout_redundant_nodes fuel n es
parse_xml fuel n other = kickout_redundant_nodes fuel n []

-- OnItemExpanded; `none`: the response does not load.
unfoldable pub on_item_expanded : ℕ → ℕ → Option Document → T (Unit {0})
unfolding del_all parse_xml
on_item_expanded fuel n document = do
  node ← node_at n
  elim node.nodes [ [] ↦ del_all n | x ∷ xs ↦ done ]
  elim document [ none ↦ done | some d ↦ parse_xml fuel n d ]
