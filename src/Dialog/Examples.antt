-- ===== src/Dialog/Examples.antt =====
-- The program with a watched room of two users.
use real_time_monitor_agent.Base.{◌≡◌, refl, List, [], ◌∷◌, none, some, true, false, arith}
use real_time_monitor_agent.Base.OrdMap.{lookup, behind, erase}
use real_time_monitor_agent.Store.{update, Sent, PjStatus, success}
use real_time_monitor_agent.Rooms.Examples.{
  busy_store, busy_store-Sound, busy_store-Housing, busy_room, linked_proxy, shown_user,
  hidden_user,
}
use real_time_monitor_agent.Wall.Invariant.{Sound}
use real_time_monitor_agent.Wall.Calls.{deletes}
use real_time_monitor_agent.Wall.Examples.{busy_store-Rooted, other_user}
use real_time_monitor_agent.Sockets.{ready}
use real_time_monitor_agent.Connections.Examples.{answers, no_links}
use real_time_monitor_agent.Layout.Examples.{one_screen}
use real_time_monitor_agent.Nodes.{Node, title_node, dynamic_node, on_item_expanded}
use real_time_monitor_agent.Rooms.{on_destory, destory_users, del_user}
use real_time_monitor_agent.Users.{screen_disconnect_user, user_disconnect_screen}
use real_time_monitor_agent.Nodes.Examples.{room_node}
use real_time_monitor_agent.Traverse.Examples.{small, silent, flat}
use real_time_monitor_agent.Dialog.{
  Main, Ran, ran, broken, hangs, World, right_arrow, watch_room_user,
}
use real_time_monitor_agent.Dialog.Running.{
  Act, expand_node, key, drag, piped, button_up, scene, acts, acts-Sound,
}
use real_time_monitor_agent.Dialog.Dragging.{drag-acts, delete-acts}
use real_time_monitor_agent.Dialog.Placing.{Placed}
use real_time_monitor_agent.Dialog.Paging.{Watchable, right_arrow-Placed}
use real_time_monitor_agent.Watch.Examples.{two_users, busy_store-HasUsers}

abbrev calm_net : List Sent → Sent → PjStatus
calm_net sent x = success

abbrev calm_world : World
calm_world = record {
  answers = answers;
  selected = ready false true;
  size = 0;
  memory = [];
  service = silent;
  parent_of = flat;
}

abbrev program : Main
program = record {
  table = no_links;
  watch = small;
  manager = one_screen;
  is_draging = false;
  draging_user = none;
  res_type = 0;
  pipe = [];
}

-- The node at 5 has the room at 0, of which a user is on a screen; the new response lists no room.
abbrev open_node : Node
open_node = record {
  id = 4;
  order = 1;
  usercount = 0;
  node_type = title_node;
  nodes = (9, 0) ∷ [];
  nodes_order = 0 ∷ [];
}

abbrev grown_program : Main
grown_program = record program {
  watch = record small {
    tree = record {
      at = update (update (λ p. none) 5 (some open_node)) 0 (some (room_node 9 1));
      next_node = 6;
      destoryed = [];
    };
  };
}

abbrev emptying_world : World
emptying_world = record calm_world { service = λ w id. some (dynamic_node []) }

abbrev main_of : Ran → Main
main_of r = elim r [ ran w ↦ w | broken ↦ program | hangs ↦ program ]

abbrev kicking : List Act
kicking = drag (some 1) ∷ (piped calm_world 3 ∷ (expand_node emptying_world 3 5 ∷ []))

-- The room is kicked out, and with it its users.
abbrev kicked_program : Main
unfolding acts on_item_expanded on_destory destory_users del_user lookup screen_disconnect_user
    user_disconnect_screen behind erase
kicked_program = main_of (acts calm_net kicking grown_program)

kicked_run : acts calm_net kicking grown_program ≡ ran kicked_program
unfolding acts on_item_expanded on_destory destory_users del_user lookup screen_disconnect_user
    user_disconnect_screen behind erase
kicked_run = refl

kicked_user : kicked_program.table.store.users 0 ≡ none
unfolding acts on_item_expanded on_destory destory_users del_user lookup screen_disconnect_user
    user_disconnect_screen behind erase
kicked_user = refl

acts-Sound_example : Sound kicked_program.table.store
acts-Sound_example =
    acts-Sound calm_net kicking grown_program kicked_program busy_store-Sound kicked_run

drag-acts_example :
    (w' : Main) × (acts calm_net
        (drag (some 1) ∷ (piped calm_world 3 ∷ (button_up 3 ∷ (piped calm_world 3 ∷ []))))
        program
      ≡ ran w')
    × ((w'.table.store.screens 3).user ≡ some 1)
    × Sound w'.table.store
    × (w'.is_draging ≡ false)
    × (w'.draging_user ≡ none)
    × (w'.pipe ≡ [])
drag-acts_example =
    drag-acts calm_net calm_world 3 3 1 0 0 busy_room hidden_user program busy_store-Sound
      busy_store-Rooted (omega arith) refl refl refl refl (ground arith)
      (λ q w e h. ground (arith, e, h, other_user)) refl

abbrev waiting_program : Main
waiting_program = record program { pipe = watch_room_user (some 1) 4 ∷ [] }

delete-acts_example :
    acts calm_net (scene (deletes 0 6) ∷ (piped calm_world 3 ∷ [])) waiting_program ≡ broken
delete-acts_example =
    delete-acts calm_net calm_world 3 4 1 0 6 busy_room waiting_program busy_store-Housing
      (unfold lookup in refl) (omega arith) refl

-- The room at 0 is watched.
abbrev watching_program : Main
watching_program = record program {
  watch = record small { list = record { watching = true; page = 0; rooms = 0 ∷ [] } };
}

shown_user-Watchable : Watchable 0 busy_store
shown_user-Watchable = record {
  user = shown_user;
  lives = refl;
  on_wall = λ s on. ground arith;
  room_at = 0;
  in_room = refl;
  room = busy_room;
  here = refl;
  proxy_at = 0;
  served = refl;
  proxy = linked_proxy;
  connected = refl;
}

hidden_user-Watchable : Watchable 1 busy_store
hidden_user-Watchable = record {
  user = hidden_user;
  lives = refl;
  on_wall = λ s on. absurd (ground (arith, on));
  room_at = 0;
  in_room = refl;
  room = busy_room;
  here = refl;
  proxy_at = 0;
  served = refl;
  proxy = linked_proxy;
  connected = refl;
}

right_arrow-Placed_example :
    (w' : Main) × (acts calm_net
        (key right_arrow ∷ (piped calm_world 3 ∷ (piped calm_world 3 ∷ (piped calm_world 3 ∷ []))))
        watching_program
      ≡ ran w')
    × Placed 0 ((5, 0) ∷ ((6, 1) ∷ [])) w'.table.store
    × (w'.pipe ≡ [])
right_arrow-Placed_example =
    right_arrow-Placed calm_net calm_world 3 two_users watching_program busy_store-Sound
      busy_store-HasUsers refl (omega arith) (omega arith) (omega arith)
      (shown_user-Watchable, (hidden_user-Watchable, tt)) ((omega arith, tt), (tt, tt)) refl
