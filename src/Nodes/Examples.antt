-- ===== src/Nodes/Examples.antt =====
-- A node with two rooms, and a response that lists one of them and a new one.
use real_time_monitor_agent.Base.{
  ℕ, ◌≡◌, refl, List, [], ◌∷◌, none, some, arith, ◌==◌, if◌then◌else◌,
}
use real_time_monitor_agent.Base.OrdMap.{lookup}
use real_time_monitor_agent.Store.{update}
use real_time_monitor_agent.Nodes.{
  title_node, title_room, Node, Tree, gives, Entry, dynamic_node, has_id, parse_xml,
}
use real_time_monitor_agent.Nodes.Parents.{Parent, known}
use real_time_monitor_agent.Nodes.Expanding.{parse_xml-keys}

abbrev pub room_node : ℕ → ℕ → Node
room_node id order = record {
  id = id;
  order = order;
  usercount = 0;
  node_type = title_room;
  nodes = [];
  nodes_order = [];
}

abbrev pub two_rooms : Node
two_rooms = record {
  id = 4;
  order = 1;
  usercount = 0;
  node_type = title_node;
  nodes = (5, 1) ∷ ((6, 2) ∷ []);
  nodes_order = 1 ∷ (2 ∷ []);
}

abbrev pub small_tree : Tree
small_tree = record {
  at =
      update (update (update (λ p. none) 0 (some two_rooms)) 1 (some (room_node 5 10))) 2
        (some (room_node 6 20));
  next_node = 3;
  destoryed = [];
}

pub small_tree-Parent : Parent 0 two_rooms small_tree
unfolding lookup
small_tree-Parent = record {
  here = refl;
  keyed = (refl, (refl, tt));
  fresh = λ p x. ground arith;
  child = λ id p x.
      (if p == 1 then room_node 5 10 else room_node 6 20, ground arith, ground arith, ground arith);
  apart = λ id id' p x y. ground arith;
}

abbrev pub listed : List Entry
listed =
    record { id = 6; order = 20; usercount = 3 }
    ∷ (record { id = 7; order = 5; usercount = 0 } ∷ [])

parse_xml-keys_example :
    (t' : Tree) × (node' : Node) × (parse_xml 2 0 (dynamic_node listed) small_tree ≡ gives tt t')
    × Parent 0 node' t'
    × ((id : ℕ) → known (lookup id node'.nodes) ≡ has_id id listed)
parse_xml-keys_example =
    parse_xml-keys 0 1 listed two_rooms small_tree small_tree-Parent
      ((room_node 5 10, refl), ((room_node 6 20, refl), tt))
