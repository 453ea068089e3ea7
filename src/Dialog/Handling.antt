-- ===== src/Dialog/Handling.antt =====
-- What the handlers of the main window do to the store (Monitor/Monitor/MonitorDlg.cpp).
use real_time_monitor_agent.Base.{
  ℕ, List, [], ◌∷◌, Option, none, some, Bool, true, false, ◌==◌, if◌then◌else◌,
}
use real_time_monitor_agent.Store.{Sent, M, PjStatus, invalid_screen_index}
use real_time_monitor_agent.Store.Keeps.{
  Keeps, Keeps-pure, Runs-bind, Runs-user_at, Runs-if, Runs-weaken,
}
use real_time_monitor_agent.Wall.Invariant.{Sound}
use real_time_monitor_agent.Wall.Linking.{link_screen_user-Keeps}
use real_time_monitor_agent.Wall.Cleaning.{clean_screens-Keeps}
use real_time_monitor_agent.Layout.{change_layout}
use real_time_monitor_agent.Connections.{C, Ended, returns, blocked, crashed, unfinished, on_store}
use real_time_monitor_agent.Traverse.{Walk, walks, crashes, endless}
use real_time_monitor_agent.Dialog.{
  Param, select_user, watch_room_user, link_room_user, unlink_room_user, expandedroom, shrinkedroom,
  disconnect_all_proxys, clean_screen, change_layouts, continue, Main, Ran, ran, broken, hangs,
  then_ran, on_table, on_objects, send_message, World, is_some, after_walk, handle, any_shown,
}
use real_time_monitor_agent.Dialog.Methods.{unlink_screen_user-Keeps}
use real_time_monitor_agent.Dialog.Tables.{
  Ends, Safe, Safe-on_store, del_all_proxys-Safe, on_link_room-Safe, on_unlink_room-Safe,
}
use real_time_monitor_agent.Dialog.Walks.{Walked, on_traverse-Walked}

abbrev pub IsSound : Ran → Type 0
IsSound o = elim o [ ran w ↦ Sound w.table.store | broken ↦ Unit | hangs ↦ Unit ]

pub on_table-IsSound :
    {A : Type 0} (m : C A) (k : A → Main → Ran) (w : Main)
    → Safe m
    → ((a : A) (w' : Main) → Sound w'.table.store → IsSound (k a w'))
    → Sound w.table.store
    → IsSound (on_table m k w)
on_table-IsSound {A} m k w safe goes_on v = from (m w.table) (safe.run w.table v)
  where
    from :
        (o : Ended A)
        → Ends o
        → IsSound (elim o as (λ x. Ran) [
          | returns a t ↦ k a (record w { table = t })
          | blocked ↦ hangs
          | crashed ↦ broken
          | unfinished ↦ hangs
        ])
    from (returns a t) e = goes_on a (record w { table = t }) e
    from blocked e = tt
    from crashed e = tt
    from unfinished e = tt

pub on_objects-IsSound :
    {A : Type 0} (m : M A) (w : Main)
    → Keeps Sound m
    → Sound w.table.store
    → IsSound (on_objects m w)
on_objects-IsSound m w keep v =
    on_table-IsSound (on_store m) (λ a w'. ran w') w (Safe-on_store keep) (λ a w' e. e) v

pub after_walk-IsSound : (w : Main) (o : Walk) → Walked o → IsSound (after_walk w o)
after_walk-IsSound w (walks v) e = e
after_walk-IsSound w crashes e = tt
after_walk-IsSound w endless e = tt

pub if-IsSound : (b : Bool) (x y : Ran) → IsSound x → IsSound y → IsSound (if b then x else y)
if-IsSound true x y e e' = e
if-IsSound false x y e e' = e'

pub option-IsSound :
    {V : Type 0} (n : Ran) (s : V → Ran) (o : Option V)
    → IsSound n
    → ((v : V) → IsSound (s v))
    → IsSound (elim o [ none ↦ n | some v ↦ s v ])
option-IsSound n s none e es = e
option-IsSound n s (some v) e es = es v

pub then_ran-IsSound :
    (r : Ran) (f : Main → Ran)
    → IsSound r
    → ((w : Main) → Sound w.table.store → IsSound (f w))
    → IsSound (then_ran r f)
then_ran-IsSound (ran w) f e keep = keep w e
then_ran-IsSound broken f e keep = tt
then_ran-IsSound hangs f e keep = tt

module _ (net : List Sent → Sent → PjStatus) where
  pub handle-IsSound :
      (world : World) (fuel : ℕ) (x : Param) (w : Main)
      → Sound w.table.store
      → IsSound (handle net world fuel x w)
  unfolding handle
  handle-IsSound world fuel (select_user none) w v = v
  handle-IsSound world fuel (select_user (some p)) w v = v
  handle-IsSound world fuel (watch_room_user none screen_idx) w v = v
  handle-IsSound world fuel (watch_room_user (some p) screen_idx) w v =
      if-IsSound (screen_idx == invalid_screen_index) _ _ v
        (on_objects-IsSound _ w (link_screen_user-Keeps net screen_idx (some p)) v)
  handle-IsSound world fuel (link_room_user screen_idx) w v =
      option-IsSound _ _ w.draging_user v λ p.
        if-IsSound (screen_idx == invalid_screen_index) _ _ v (
          if-IsSound w.is_draging _ _
            (then_ran-IsSound _ _
              (on_objects-IsSound _ w (link_screen_user-Keeps net screen_idx (some p)) v) λ w' e. e)
            v)
  handle-IsSound world fuel (unlink_room_user none screen) w v = v
  handle-IsSound world fuel (unlink_room_user (some p) none) w v = v
  handle-IsSound world fuel (unlink_room_user (some p) (some s)) w v =
      on_objects-IsSound _ w (unlink_screen_user-Keeps net s p) v
  handle-IsSound world fuel (expandedroom title none) w v = v
  handle-IsSound world fuel (expandedroom title (some r)) w v =
      on_table-IsSound _
        (λ (status, goes_on) w'. if goes_on then send_message (continue title) w' else ran w') w
        (on_link_room-Safe net world.answers world.selected r (is_some title) world.size
          world.memory)
        (λ (status, goes_on) w' e.
          if-IsSound goes_on (send_message (continue title) w') (ran w') e e)
        v
  handle-IsSound world fuel (shrinkedroom none) w v = v
  handle-IsSound world fuel (shrinkedroom (some r)) w v =
      on_table-IsSound _ (λ a w'. ran w') w (on_unlink_room-Safe net (some r)) (λ a w' e. e) v
  handle-IsSound world fuel disconnect_all_proxys w v =
      on_table-IsSound _ (λ a w'. ran w') w del_all_proxys-Safe (λ a w' e. e) v
  handle-IsSound world fuel clean_screen w v = on_objects-IsSound _ w clean_screens-Keeps v
  handle-IsSound world fuel (continue title) w v =
      after_walk-IsSound w _ (on_traverse-Walked world.service world.parent_of fuel _ v)
  handle-IsSound world fuel change_layouts w v =
      option-IsSound _ _ (change_layout w.res_type w.manager) tt λ m. v

pub any_shown-Keeps : (users : List (ℕ × ℕ)) → Keeps Sound (any_shown users)
unfolding any_shown
any_shown-Keeps [] = record { run = λ st v. v }
any_shown-Keeps ((k, p) ∷ users) = record {
  run = λ st v.
      (Runs-bind (Runs-weaken (λ st' v'. v') (Runs-user_at p) (λ u st' v'. v'.0)) λ u.
          Runs-if (u.screen_idx == invalid_screen_index) (λ e. any_shown-Keeps users)
            (λ e. Keeps-pure)).run
        st v;
}
