-- ===== src/Wall/Examples.antt =====
-- A run of the wall: the screen of one user is given to another, then all screens are cleaned.
use real_time_monitor_agent.Base.{arith, some, ◌≡◌, refl, List, false}
use real_time_monitor_agent.Store.{
  Store, Sent, Outcome, ok, deadlock, fault, stuck, PjStatus, success,
}
use real_time_monitor_agent.Store.Reaches.{Reaches, start, call}
use real_time_monitor_agent.Users.{
  user_connect_screen, user_disconnect_screen, screen_connect_user, screen_disconnect_user, user_eq,
}
use real_time_monitor_agent.Proxies.{send, proxy_link_room_user, proxy_unlink_room_user}
use real_time_monitor_agent.Rooms.Examples.{
  busy_room, shown_user, hidden_user, linked_proxy, busy_store, busy_store-Sound,
}
use real_time_monitor_agent.Wall.{
  unlink_screen_user, leave_old_screen, clear_new_screen, link_screen_user,
}
use real_time_monitor_agent.Wall.Invariant.{Sound}
use real_time_monitor_agent.Wall.Shows.{Rooted}
use real_time_monitor_agent.Wall.Taking.{link_screen_user-shows}
use real_time_monitor_agent.Wall.Calls.{links, perform}

abbrev perfect_net : List Sent → Sent → PjStatus
perfect_net sent x = success

-- The store of a run that returns.
abbrev store_of : Outcome (Unit {0}) → Store
store_of o = elim o [
  | ok a st ↦ st
  | deadlock ↦ busy_store
  | fault ↦ busy_store
  | stuck ↦ busy_store
]

-- The user at 1 takes the screen 3 from the user at 0.
abbrev taken : Store
unfolding perform link_screen_user leave_old_screen clear_new_screen unlink_screen_user user_eq
    screen_connect_user screen_disconnect_user user_connect_screen user_disconnect_screen
    proxy_link_room_user proxy_unlink_room_user send
taken = store_of (perform perfect_net (links 3 (some 1)) busy_store)

screen_taken : (taken.screens 3).user ≡ some 1
unfolding taken perform link_screen_user leave_old_screen clear_new_screen unlink_screen_user
    user_eq screen_connect_user screen_disconnect_user user_connect_screen user_disconnect_screen
    proxy_link_room_user proxy_unlink_room_user send
screen_taken = refl

taken_run : Reaches (perform perfect_net) busy_store taken
unfolding taken perform link_screen_user leave_old_screen clear_new_screen unlink_screen_user
    user_eq screen_connect_user screen_disconnect_user user_connect_screen user_disconnect_screen
    proxy_link_room_user proxy_unlink_room_user send
taken_run = call (links 3 (some 1)) busy_store taken start refl

pub busy_store-Rooted : Rooted busy_store
busy_store-Rooted = record {
  room_of = λ p r u h e. (busy_room, ground arith);
  proxy_of = λ r a room h e. (linked_proxy, ground arith);
}

pub other_user : user_eq hidden_user shown_user ≡ false
unfolding user_eq
other_user = refl

link_screen_user-shows_example :
    (st' : Store) × (link_screen_user perfect_net 3 (some 1) busy_store ≡ ok tt st')
    × ((st'.screens 3).user ≡ some 1)
    × Sound st'
link_screen_user-shows_example =
    link_screen_user-shows perfect_net 3 1 0 0 busy_room hidden_user busy_store busy_store-Sound
      busy_store-Rooted (omega arith) refl refl refl refl (ground arith)
      (λ q w e h. ground (arith, e, h, other_user))
