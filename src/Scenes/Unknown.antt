-- ===== src/Scenes/Unknown.antt =====
-- Messages about a user that the room does not have.
use real_time_monitor_agent.Base.{ℕ, ◌≡◌, List, none, some, arith}
use real_time_monitor_agent.Base.OrdMap.{lookup}
use real_time_monitor_agent.Wire.Parameters.{DelUserParameter, ModMediaParameter}
use real_time_monitor_agent.Store.{
  Store, TitleRoom, AvsProxy, Sent, ok, deadlock, PjStatus, success,
}
use real_time_monitor_agent.Rooms.Membership.{Housing}
use real_time_monitor_agent.Rooms.Joining.{get_user-unknown}
use real_time_monitor_agent.Proxies.{get_room}
use real_time_monitor_agent.Scenes.{del_user_scene, mod_media_scene}

module _ (net : List Sent → Sent → PjStatus) (a r : ℕ) (proxy : AvsProxy) (room : TitleRoom)
    (st : Store) (here : st.proxies a ≡ some proxy) where
  get_room-known :
      (room_id : ℕ)
      → lookup room_id proxy.rooms ≡ some r
      → get_room net a room_id st ≡ ok (success, some r) st
  unfolding get_room
  get_room-known room_id found = ground arith

  -- A message that deletes a user, or one that changes its media, names a room that the proxy has and a
  -- user that the room does not have: its scene locks the mutex of the room twice and never returns.
  pub unknown_user-deadlocks :
      (p : DelUserParameter) (q : ModMediaParameter)
      → Housing r room st
      → lookup p.room_id proxy.rooms ≡ some r
      → lookup q.room_id proxy.rooms ≡ some r
      → lookup p.user_id room.users ≡ none
      → lookup q.user_id room.users ≡ none
      → (del_user_scene net p a st ≡ deadlock) × (mod_media_scene net q a st ≡ deadlock)
  unfolding del_user_scene mod_media_scene
  unknown_user-deadlocks p q v found found' unknown unknown' = (
    ground (arith, get_room-known p.room_id found, get_user-unknown r p.user_id room st v unknown),
    ground
        (arith, get_room-known q.room_id found', get_user-unknown r q.user_id room st v unknown'),
  )
