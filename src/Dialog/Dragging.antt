-- ===== src/Dialog/Dragging.antt =====
-- A user that is dragged onto a screen, and a message about a user that is gone
-- (Monitor/Monitor/MonitorDlg.cpp).
use real_time_monitor_agent.Base.{ℕ, ◌<◌, ◌≡◌, ◌≢◌, refl, List, [], ◌∷◌, none, some, false, arith}
use real_time_monitor_agent.Base.OrdMap.{lookup}
use real_time_monitor_agent.Store.{
  Store, User, TitleRoom, Sent, PjStatus, invalid_screen_index, maximal_screen_num,
}
use real_time_monitor_agent.Users.{user_eq}
use real_time_monitor_agent.Rooms.Membership.{Housing, del_user-Removed}
use real_time_monitor_agent.Wall.Invariant.{Sound}
use real_time_monitor_agent.Wall.Shows.{Rooted}
use real_time_monitor_agent.Wall.Taking.{link_screen_user-shows}
use real_time_monitor_agent.Wall.Calls.{deletes}
use real_time_monitor_agent.Dialog.{watch_room_user, Main, ran, broken, World}
use real_time_monitor_agent.Dialog.Running.{piped, button_up, drag, scene, acts}

module _ (net : List Sent → Sent → PjStatus) (world : World) (fuel : ℕ) where
  -- The store of a program that goes on.
  abbrev with_store : Main → Store → Main
  with_store w st = record w { table = record w.table { store = st } }

  -- The user drags an item of the tree onto one of the fifteen screens: the drag, its message, the button
  -- and its message, with nothing else in the pipe. If the store is sound, every user's room and
  -- every room's proxy exist, the room of the user has a proxy, and the user is neither on that screen
  -- nor equal to the one shown there, then the screen shows the user at the end, users and screens are
  -- linked both ways, nothing is dragged any more and the pipe is empty.
  pub drag-acts :
      (ns p r a : ℕ) (room : TitleRoom) (u : User) (w : Main)
      → Sound w.table.store
      → Rooted w.table.store
      → ns < maximal_screen_num
      → w.table.store.users p ≡ some u
      → u.title_room ≡ some r
      → w.table.store.rooms r ≡ some room
      → room.proxy ≡ some a
      → u.screen ≢ some ns
      → ((q : ℕ) (v : User)
          → (w.table.store.screens ns).user ≡ some q
          → w.table.store.users q ≡ some v
          → user_eq u v ≡ false)
      → w.pipe ≡ []
      → (w' : Main) × (acts net
            (drag (some p) ∷ (piped world fuel ∷ (button_up ns ∷ (piped world fuel ∷ []))))
            w
          ≡ ran w')
        × ((w'.table.store.screens ns).user ≡ some p)
        × Sound w'.table.store
        × (w'.is_draging ≡ false)
        × (w'.draging_user ≡ none)
        × (w'.pipe ≡ [])
  unfolding acts
  drag-acts ns p r a room u w v v' small hu hr hroom ha not_there ne empty =
      let (st', e, shows, sound) =
        link_screen_user-shows net ns p r a room u w.table.store v v' small hu hr hroom ha not_there
          ne in
      (
        record w {
          table = record w.table { store = st' };
          is_draging = false;
          draging_user = none;
          pipe = [];
        },
        ground (arith, empty, e),
        shows,
        sound,
        refl,
        refl,
        refl,
      )

  -- A page of a watched room was shown and the message that places a user waits in the pipe; before the
  -- main window reads it, a scene deletes the user from its room. Then the main window uses the deleted
  -- user.
  pub delete-acts :
      (idx p r user_id : ℕ) (room : TitleRoom) (w : Main)
      → Housing r room w.table.store
      → lookup user_id room.users ≡ some p
      → idx ≢ invalid_screen_index
      → w.pipe ≡ watch_room_user (some p) idx ∷ []
      → acts net (scene (deletes r user_id) ∷ (piped world fuel ∷ [])) w ≡ broken
  unfolding acts
  delete-acts idx p r user_id room w v found real waits =
      let (st', e, gone) = del_user-Removed r user_id p room w.table.store v found in
      ground (arith, waits, e, gone.gone)
