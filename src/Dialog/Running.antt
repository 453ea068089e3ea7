-- ===== src/Dialog/Running.antt =====
-- Runs of the whole program: what the user does, the messages of the main window, and what the threads
-- of the scenes do in between (Monitor/Monitor/MonitorDlg.cpp).
use real_time_monitor_agent.Base.{ℕ, ◌≡◌, List, [], ◌∷◌, Option, none, some, if◌then◌else◌}
use mathlib.Core.Path.{subst}
use real_time_monitor_agent.Store.{Sent, PjStatus}
use real_time_monitor_agent.Store.Keeps.{Keeps-pure, Keeps-room_at, Runs-bind}
use real_time_monitor_agent.Rooms.Invariant.{with_room_lock-Keeps}
use real_time_monitor_agent.Wall.Invariant.{Sound}
use real_time_monitor_agent.Wall.Calls.{Call, perform, perform-Keeps}
use real_time_monitor_agent.Dialog.{
  Param, expandedroom, shrinkedroom, Main, Ran, ran, then_ran, on_objects, send_message, World,
  lent, handle, on_pipe, Key, left_arrow, right_arrow, return_key, other_key, pre_translate_message,
  on_l_button_up, on_l_button_dbl_clk, on_tvn_begin_drag, room_on_item_expanded,
  room_on_item_shrinked, node_on_item_expanded, on_look_up_node, on_unlook_up_node,
}
use real_time_monitor_agent.Dialog.Tables.{Safe-on_store}
use real_time_monitor_agent.Dialog.Walks.{
  Walked-option, node_expanded-Walked, show_next-Walked, show_prev-Walked, begin_watching-Walked,
}
use real_time_monitor_agent.Dialog.Handling.{
  IsSound, on_table-IsSound, on_objects-IsSound, after_walk-IsSound, if-IsSound, option-IsSound,
  then_ran-IsSound, handle-IsSound, any_shown-Keeps,
}

-- What happens: the main window handles a message, the user presses a key or a button of the mouse,
-- drags an item, expands or shrinks a room, expands a node, looks a node up or ends that, or a scene
-- changes users, rooms or screens. Each happens whole: the scenes have threads of their own, and what
-- no lock of the source prevents, that one runs in the middle of another or of a handler, is not a run.
pub data Act : Type 0 where
  piped : (world : World) → (fuel : ℕ) → Act
  key : Key → Act
  button_up dbl_clk : (index : ℕ) → Act
  drag : (user : Option ℕ) → Act
  expand shrink : (r : ℕ) → Act
  expand_node : (world : World) → (fuel node : ℕ) → Act
  look_up : (world : World) → (fuel node title : ℕ) → Act
  unlook_up : Act
  scene : Call → Act

unfoldable pub act : (List Sent → Sent → PjStatus) → Act → Main → Ran
unfolding on_pipe pre_translate_message on_l_button_up on_l_button_dbl_clk on_tvn_begin_drag
    room_on_item_expanded room_on_item_shrinked node_on_item_expanded on_look_up_node
    on_unlook_up_node perform
act net (piped world fuel) = on_pipe net world fuel
act net (key k) = pre_translate_message k
act net (button_up index) = on_l_button_up index
act net (dbl_clk index) = on_l_button_dbl_clk index
act net (drag user) = on_tvn_begin_drag user
act net (expand r) = room_on_item_expanded r
act net (shrink r) = room_on_item_shrinked r
act net (expand_node world fuel node) = node_on_item_expanded world fuel node
act net (look_up world fuel node title) = on_look_up_node world fuel node title
act net unlook_up = on_unlook_up_node
act net (scene c) = on_objects (perform net c)

-- One after the other.
unfoldable pub acts : (List Sent → Sent → PjStatus) → List Act → Main → Ran
unfolding act
acts net [] w = ran w
acts net (x ∷ xs) w = then_ran (act net x w) (acts net xs)

module _ (net : List Sent → Sent → PjStatus) where
  act-IsSound : (x : Act) (w : Main) → Sound w.table.store → IsSound (act net x w)
  unfolding act
  act-IsSound (piped world fuel) w v = from w.pipe
    where
      from :
          (l : List Param)
          → IsSound (elim l as (λ x. Ran) [
            | [] ↦ ran w
            | x ∷ xs ↦ handle net world fuel x (record w { pipe = xs })
          ])
      from [] = v
      from (x ∷ xs) = handle-IsSound net world fuel x (record w { pipe = xs }) v
  act-IsSound (key left_arrow) w v = after_walk-IsSound w _ (show_prev-Walked (lent w) v)
  act-IsSound (key right_arrow) w v = after_walk-IsSound w _ (show_next-Walked (lent w) v)
  act-IsSound (key return_key) w v = v
  act-IsSound (key other_key) w v = v
  act-IsSound (button_up index) w v = v
  act-IsSound (dbl_clk index) w v = v
  act-IsSound (drag none) w v = v
  act-IsSound (drag (some p)) w v = v
  act-IsSound (expand r) w v =
      on_table-IsSound _
        (λ proxy w'. elim proxy [
          | none ↦ send_message (expandedroom none (some r)) w'
          | some a ↦ ran w'
        ])
        w
        (Safe-on_store (
          with_room_lock-Keeps r _
            (Runs-bind (Keeps-room_at r) λ room. Keeps-pure {a = room.proxy})))
        (λ proxy w' e. option-IsSound _ _ proxy e λ a. e) v
  act-IsSound (shrink r) w v =
      on_table-IsSound _
        (λ shown w'. if shown then ran w' else send_message (shrinkedroom (some r)) w') w
        (Safe-on_store (
          with_room_lock-Keeps r _
            (Runs-bind (Keeps-room_at r) λ room. any_shown-Keeps room.users)))
        (λ shown w' e. if-IsSound shown (ran w') (send_message (shrinkedroom (some r)) w') e e) v
  act-IsSound (expand_node world fuel n) w v = after_walk-IsSound w _ (
      Walked-option _ _ (w.watch.tree.at n) tt
        λ node. node_expanded-Walked fuel n (world.service (lent w) node.id) (lent w) v)
  act-IsSound (look_up world fuel node title) w v =
      after_walk-IsSound w _
        (begin_watching-Walked world.service world.parent_of fuel node title (lent w) v)
  act-IsSound unlook_up w v = v
  act-IsSound (scene c) w v = on_objects-IsSound _ w (perform-Keeps net c) v

  -- Whatever the user does, the messages say and the scenes do to users, rooms and screens, and whatever
  -- rooms the expansion of a node kicks out, in any order, each handler and each call of a scene whole
  -- before the next one, and with any answers of the network and the services: from users and screens
  -- that are linked both ways, as long as the program goes on, they stay linked both ways.
  pub acts-Sound :
      (xs : List Act) (w w' : Main)
      → Sound w.table.store
      → acts net xs w ≡ ran w'
      → Sound w'.table.store
  unfolding acts
  acts-Sound xs w w' v e = subst IsSound e (all xs w v)
    where
      all : (xs : List Act) (w : Main) → Sound w.table.store → IsSound (acts net xs w)
      all [] w v = v
      all (x ∷ xs) w v = then_ran-IsSound (act net x w) (acts net xs) (act-IsSound x w v) (all xs)
