-- ===== src/Scenes.antt =====
-- The dispatch of messages to scenes, and what the scenes do (TcpParamScene, UdpParamScene and GetProxy of
-- Monitor/Monitor/ScreenMgr.cpp, Maintain of Monitor/Monitor/Scene/AvsProxyScene/src).
pub mod Schedules
pub mod Unknown
pub mod Media
pub mod Datagrams
mod Examples
use mathlib.Core.Option
use real_time_monitor_agent.Base.{
  ℕ, zero, suc, ◌+◌, ◌-◌, ◌^◌, ◌%◌, List, [], ◌∷◌, ◌++◌, Option, none, some, Bool, true, false, ltb,
  ◌==◌, if◌then◌else◌, length, take, drop, get_elem?,
}
use real_time_monitor_agent.Base.OrdMap.{lookup}
use real_time_monitor_agent.Wire.Order.{NetOrder, load}
use real_time_monitor_agent.Wire.Cursor.{Cursor, Parse, parsed, outside}
use real_time_monitor_agent.Wire.Cursor
use real_time_monitor_agent.Wire.Parameters.{
  TcpParameter, AddUserParameter, DelUserParameter, ModMediaParameter, UdpParameter, NatParameter,
  res_login_parameter, keep_alive_parameter, add_user_parameter, del_user_parameter,
  mod_media_parameter, nat_parameter,
}
use real_time_monitor_agent.Wire.RoomsInfo.{
  UserInfo, RoomInfo, RoomsInfoParameter, rooms_info_parameter,
}
use real_time_monitor_agent.Store.{
  Store, Sent, M, Outcome, ok, deadlock, fault, stuck, pure, ◌>>=◌, ◌>>◌, PjStatus, success,
  maximal_screen_num,
}
use real_time_monitor_agent.Rooms.{add_user, del_user, get_user, mod_user}
use real_time_monitor_agent.Proxies.{get_room, on_rx_login, on_rx_nat}

-- The types of the messages, from command.h.
abbrev pub type_res_login : ℕ
type_res_login = 0

abbrev pub type_rooms_info : ℕ
type_rooms_info = 1

abbrev pub type_mod_media : ℕ
type_mod_media = 2

abbrev pub type_add_user : ℕ
type_add_user = 3

abbrev pub type_del_user : ℕ
type_del_user = 4

abbrev pub type_keep_alive : ℕ
type_keep_alive = 6

abbrev pub rtp_media_audio_type : ℕ
rtp_media_audio_type = 11

abbrev pub rtp_media_video_type : ℕ
rtp_media_video_type = 29

abbrev pub rtp_expand_payload_type : ℕ
rtp_expand_payload_type = 110

-- A scene with its parameter and its proxy, as it is bound for the thread pool.
pub data Task : Type 0 where
  res_login : TcpParameter → ℕ → Task
  rooms_info : RoomsInfoParameter → ℕ → Task
  mod_media : ModMediaParameter → ℕ → Task
  add_user_to : AddUserParameter → ℕ → Task
  del_user_from : DelUserParameter → ℕ → Task
  keep_alive : TcpParameter → ℕ → Task
  nat : NatParameter → ℕ → Task

-- `overrun`: a load behind the storage, or an index past an array. `endless`: the fuel of a loop ran out.
pub data Dispatched : Type 0 where
  scheduled : Task → Dispatched
  audio : ℕ → Dispatched
  video : ℕ → Dispatched
  dropped : Dispatched
  overrun : Dispatched
  endless : Dispatched

-- `linked_proxys_`; no null pointer is put into it.
unfoldable pub get_proxy : List (ℕ × ℕ) → ℕ → Option ℕ
get_proxy linked id = lookup id linked

-- The end of TcpParamScene, for a parameter `p` with these TCP fields.
unfoldable pub schedule :
    {P : Type 0} → List (ℕ × ℕ) → (P → ℕ) → (P → ℕ → Task) → Parse P → Dispatched
schedule linked proxy_id scene (parsed p c) = elim (get_proxy linked (proxy_id p)) [
  | none ↦ dropped
  | some a ↦ scheduled (scene p a)
]
schedule linked proxy_id scene outside = overrun
schedule linked proxy_id scene Cursor.stuck = endless

-- The positions of `g_av_index_map`, which has two elements.
abbrev pub audio_index : ℕ
audio_index = 0

abbrev pub video_index : ℕ
video_index = 1

-- `media_index` of UdpParamScene: -1 in 8 bits is 255. The test `media_index != -1` behind it compares
-- integers, so that it holds for all 8-bit values.
unfoldable pub media_index : ℕ → ℕ
media_index pt =
    if pt == rtp_media_video_type
    then video_index
    else if pt == rtp_media_audio_type
    then audio_index
    else 2 ^ 8 - 1

-- `g_av_index_map[media_index]`. `none`: the access is outside the array.
unfoldable pub av_index_map : (ℕ → Option ℕ) → (ℕ → Option ℕ) → ℕ → Option (ℕ → Option ℕ)
av_index_map audio_map video_map index =
    if index == audio_index
    then some audio_map
    else if index == video_index
    then some video_map
    else none

module _ (o : NetOrder) where
  -- The type behind the length field, for a storage that holds it.
  abbrev pub message_type : List ℕ → ℕ
  message_type memory = o.ntohs (load (take 2 (drop 2 memory)))

  unfoldable pub by_type : List (ℕ × ℕ) → ℕ → Cursor → Dispatched
  by_type linked type c =
      if type == type_res_login
      then schedule linked (λ (p : TcpParameter). p.proxy_id) res_login (res_login_parameter o c)
      else if type == type_rooms_info
      then schedule linked (λ (p : RoomsInfoParameter). p.tcp.proxy_id) rooms_info
          (rooms_info_parameter o c)
      else if type == type_mod_media
      then schedule linked (λ (p : ModMediaParameter). p.tcp.proxy_id) mod_media
          (mod_media_parameter o c)
      else if type == type_add_user
      then schedule linked (λ (p : AddUserParameter). p.tcp.proxy_id) add_user_to
          (add_user_parameter o c)
      else if type == type_del_user
      then schedule linked (λ (p : DelUserParameter). p.tcp.proxy_id) del_user_from
          (del_user_parameter o c)
      else if type == type_keep_alive
      then schedule linked (λ (p : TcpParameter). p.proxy_id) keep_alive (keep_alive_parameter o c)
      else dropped

  unfoldable pub tcp_param_scene : List (ℕ × ℕ) → Cursor → Dispatched
  tcp_param_scene linked c =
      if ltb 0 c.storage_len
      then if ltb (length c.memory) 4 then overrun else by_type linked (message_type c.memory) c
      else dropped

  unfoldable pub udp_param_scene :
      List (ℕ × ℕ) → (ℕ → Option ℕ) → (ℕ → Option ℕ) → ℕ → ℕ → Cursor → Dispatched
  unfolding media_index av_index_map
  udp_param_scene linked audio_map video_map pt ssrc c =
      if ltb 0 c.storage_len
      then if pt == rtp_expand_payload_type
        then schedule linked (λ (p : NatParameter). p.udp.proxy_id) nat (nat_parameter o c)
        else elim (av_index_map audio_map video_map (media_index pt)) [
          | none ↦ overrun
          | some index_map ↦ elim (index_map ssrc) [
            | none ↦ dropped
            | some screen_idx ↦
                if ltb screen_idx maximal_screen_num
                then if media_index pt == audio_index then audio screen_idx else video screen_idx
                else dropped
          ]
        ]
      else dropped

module _ (net : List Sent → Sent → PjStatus) where
  -- Each Maintain goes on only if the proxy has the room.
  abbrev pub in_room : ℕ → ℕ → (ℕ → M (Unit {0})) → M (Unit {0})
  in_room a room_id rest = do
    (status, room) ← get_room net a room_id
    elim room [ none ↦ pure tt | some r ↦ rest r ]

  unfoldable pub add_user_scene : AddUserParameter → ℕ → M (Unit {0})
  unfolding get_room
  add_user_scene p a = in_room a p.room_id λ r. do add_user r p.user_id p.mic_id; pure tt

  unfoldable pub del_user_scene : DelUserParameter → ℕ → M (Unit {0})
  unfolding get_room
  del_user_scene p a =
      in_room a p.room_id λ r. do get_user r p.user_id; del_user r p.user_id; pure tt

  unfoldable pub mod_media_scene : ModMediaParameter → ℕ → M (Unit {0})
  unfolding get_room
  mod_media_scene p a =
      in_room a p.room_id
        λ r. do user ← get_user r p.user_id; mod_user r (some user) p.audio_ssrc p.video_ssrc

  unfoldable pub nat_scene : NatParameter → ℕ → M (Unit {0})
  nat_scene p a = do on_rx_nat net a; pure tt

  unfoldable pub res_login_scene : TcpParameter → ℕ → M (Unit {0})
  res_login_scene p a = do on_rx_login net a; pure tt

  -- The inner loop of RoomsInfoScene, whose counter has 8 bits.
  unfoldable pub users_scene : ℕ → ℕ → ℕ → ℕ → List UserInfo → M (Unit {0})
  users_scene zero r count j users st = stuck
  users_scene (suc fuel) r count j users st =
      (if ltb j count
          then elim (get_elem? users j) [
            | none ↦ (λ s. fault)
            | some u ↦ do
              p ← add_user r u.user_id u.mic_id
              mod_user r (some p) u.audio_ssrc u.video_ssrc
              users_scene fuel r count ((j + 1) % 256) users
          ]
          else pure tt)
        st

  -- The outer loop, likewise; the result are the rooms that are handed to AddRoom of the watched rooms.
  unfoldable pub rooms_scene : ℕ → ℕ → ℕ → ℕ → List RoomInfo → M (List ℕ)
  unfolding get_room
  rooms_scene zero a count i rooms st = stuck
  rooms_scene (suc fuel) a count i rooms st =
      (if ltb i count
          then elim (get_elem? rooms i) [
            | none ↦ (λ s. fault)
            | some info ↦ do
              (status, room) ← get_room net a info.room_id
              elim room [
                | none ↦ rooms_scene fuel a count ((i + 1) % 256) rooms
                | some r ↦ do
                  users_scene (suc info.user_count) r info.user_count 0 info.users_info
                  later ← rooms_scene fuel a count ((i + 1) % 256) rooms
                  pure (r ∷ later)
              ]
          ]
          else pure [])
        st

  unfoldable pub rooms_info_scene : RoomsInfoParameter → ℕ → M (List ℕ)
  rooms_info_scene p a =
      if ltb 0 p.room_count
      then rooms_scene (suc p.room_count) a p.room_count 0 p.rooms_info
      else pure []

-- KeepAliveScene only names its parameter.
unfoldable pub keep_alive_scene : TcpParameter → ℕ → M (Unit {0})
keep_alive_scene p a = pure tt
