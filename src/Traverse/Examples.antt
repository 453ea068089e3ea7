-- ===== src/Traverse/Examples.antt =====
-- A walk through a node with two rooms.
use real_time_monitor_agent.Base.{
  ℕ, ◌≡◌, refl, [], ◌∷◌, ◌++◌, Option, none, some, true, false, arith,
}
use real_time_monitor_agent.Base.OrdMap.{lookup}
use real_time_monitor_agent.Store.{update}
use real_time_monitor_agent.Rooms.Examples.{busy_store, busy_room}
use real_time_monitor_agent.Nodes.{
  Tree, gives, Document, has_id, kickout_redundant_nodes, on_item_expanded,
}
use real_time_monitor_agent.Nodes.Examples.{
  room_node, two_rooms, small_tree, small_tree-Parent, listed,
}
use real_time_monitor_agent.Watch.{cleans}
use real_time_monitor_agent.Traverse.{Watching, walks, crashes, of_page, on_watched, begin_watching}
use real_time_monitor_agent.Traverse.Order.{
  Rooms, a_node, a_room, no_rooms, Comes, on_traverse-Comes,
}
use real_time_monitor_agent.Traverse.Stale.{
  root, contains, begin_watching-hides, kickout_redundant_nodes-leaves,
}

abbrev pub small : Watching
small = record {
  store = busy_store;
  tree = small_tree;
  list = record { watching = false; page = 0; rooms = [] };
  node = none;
  title_ctl = none;
  traverse_stack = [];
  posts = [];
}

abbrev pub silent : Watching → ℕ → Option Document
silent w id = none

abbrev pub flat : ℕ → Option ℕ
flat p = none

small-Rooms : Rooms silent flat small (0 ∷ []) (1 ∷ (2 ∷ []))
unfolding on_item_expanded
small-Rooms =
    a_node 0 two_rooms [] (1 ∷ (2 ∷ [])) refl refl (λ fuel. refl)
      (a_room 1 (room_node 5 10) (2 ∷ []) (2 ∷ []) refl refl
        (a_room 2 (room_node 6 20) [] [] refl refl no_rooms))

on_traverse-Comes_example : Comes silent flat small (0 ∷ []) (1 ∷ (2 ∷ []))
on_traverse-Comes_example = on_traverse-Comes silent flat small (0 ∷ []) (1 ∷ (2 ∷ [])) small-Rooms

-- The room at 0 of the store.
abbrev room_watched_on : Watching
room_watched_on = record small {
  tree = record small_tree { at = update (λ p. none) 0 (some (room_node 9 1)) };
}

begin_watching-hides_example :
    (w' : Watching) × (begin_watching silent flat 2 0 8 room_watched_on ≡ walks w')
    × (w'.list ≡ record { watching = true; page = 0; rooms = [] })
    × (w'.posts ≡ [] ++ (of_page cleans ∷ []))
    × (w'.store ≡ busy_store)
begin_watching-hides_example =
    begin_watching-hides silent flat 1 0 8 0 [] (room_node 9 1) busy_room room_watched_on
      (root 0 refl) (unfold contains in refl) (omega arith) refl refl refl refl

kickout_redundant_nodes-leaves_example :
    (t : Tree) × (kickout_redundant_nodes 2 0 listed small_tree ≡ gives tt t)
    × (t.at 1 ≡ none)
    × (on_watched silent flat 2 0 (record small { tree = t }) ≡ crashes)
kickout_redundant_nodes-leaves_example =
    kickout_redundant_nodes-leaves flat 0 5 1 6 2 1 0 listed (2 ∷ []) two_rooms small
      small_tree-Parent refl refl (unfold lookup in refl) (unfold has_id in refl)
      (unfold lookup in refl) (unfold has_id in refl)
