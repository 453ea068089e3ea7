-- ===== src/Nodes/Titles.antt =====
-- The titles, which hold the services of the directory and their nodes (Monitor/Monitor/TitlesCtl.cpp and
-- Title.cpp). Their windows and names are left out.
use real_time_monitor_agent.Base.{ℕ, suc, ◌<◌, ◌≡◌, List, [], ◌∷◌, none, some, arith}
use real_time_monitor_agent.Base.OrdMap.{lookup, insert}
use real_time_monitor_agent.Rooms.{rank32}
use real_time_monitor_agent.Store.{update}
use real_time_monitor_agent.Nodes.{
  title, title_node, Node, Tree, gives, dangling, T, ◌>>◌, insert_order, del_node_or_room, Entry,
  new_node,
}

-- A service element of the document, with its nodes.
pub record Service : Type 0 where
  pub id : ℕ
  pub order : ℕ
  pub nodes : List Entry

pub record TitlesCtl : Type 0 where
  pub titles : List (ℕ × ℕ)
  pub titles_order : List ℕ

-- AddNode of the title at `n`.
unfoldable pub add_node : ℕ → Entry → T (Unit {0})
unfolding del_node_or_room new_node
add_node n e = do del_node_or_room n e.id; new_node title_node n e

-- The inner loop of ParseXML.
unfoldable pub add_nodes : ℕ → List Entry → T (Unit {0})
unfolding add_node
add_nodes n [] t = gives tt t
add_nodes n (e ∷ es) t = (do add_node n e; add_nodes n es) t

-- `new Title` at the next address.
unfoldable pub new_title : Service → Tree → Tree
new_title s t = record t {
  at = update t.at t.next_node (
      some (record {
        id = s.id;
        order = s.order;
        usercount = 0;
        node_type = title;
        nodes = [];
        nodes_order = [];
      }));
  next_node = suc t.next_node;
}

-- A title whose number is there already does not come into the map.
abbrev pub insert_title : ℕ → ℕ → List (ℕ × ℕ) → List (ℕ × ℕ)
insert_title id n titles = elim (lookup id titles) [
  | none ↦ insert rank32 id n titles
  | some q ↦ titles
]

-- ParseXML of a document that loads, without its assertions.
unfoldable pub parse_services : List Service → TitlesCtl → T TitlesCtl
unfolding insert_order add_nodes new_title
parse_services [] c t = gives c t
parse_services (s ∷ ss) c t =
    let t₁ : Tree = new_title s t in
    elim (insert_order t₁.at s.order t.next_node c.titles_order) [
      | none ↦ dangling
      | some order ↦
          (do
            add_nodes t.next_node s.nodes
            parse_services ss
                (record { titles = insert_title s.id t.next_node c.titles; titles_order = order }))
            t₁
    ]

-- Two nodes of a new title with the same number: AddNode deletes the first, which stays in the set, and
-- adding the second compares it with the deleted one.
add_nodes_twice :
    (n : ℕ) (node : Node) (e e' : Entry) (es : List Entry) (t : Tree)
    → t.at n ≡ some node
    → node.nodes ≡ []
    → node.nodes_order ≡ []
    → n < t.next_node
    → e.id ≡ e'.id
    → add_nodes n (e ∷ (e' ∷ es)) t ≡ dangling
unfolding add_nodes insert_order lookup insert
add_nodes_twice n node e e' es t h no_nodes no_order other same =
    ground (arith, no_nodes, no_order, same)
