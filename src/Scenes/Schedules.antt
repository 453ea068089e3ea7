-- ===== src/Scenes/Schedules.antt =====
-- Messages of a proxy and the scenes that they are handed to.
use real_time_monitor_agent.Base.{
  ℕ, ◌^◌, ◌≤◌, ◌<◌, ◌≡◌, refl, ap, ◌∙◌, List, ◌++◌, Option, none, some, arith, length, All,
}
use real_time_monitor_agent.Base.Words.{IsU16, IsU32}
use real_time_monitor_agent.Wire.Order.{
  NetOrder, network_bytes, network_bytes-IsByte, network_value-bytes_2,
}
use real_time_monitor_agent.Wire.Cursor.{Cursor, Parse, parsed}
use real_time_monitor_agent.Wire.Parameters.{
  TcpParameter, AddUserParameter, DelUserParameter, ModMediaParameter, res_login_parameter,
  keep_alive_parameter,
}
use real_time_monitor_agent.Wire.RoomsInfo.{RoomsInfoParameter}
use real_time_monitor_agent.Wire.RoomsInfo.Reading.{
  rooms_bytes, RoomFits, rooms_info_parameter-message,
}
use real_time_monitor_agent.Wire.Layout.{head_bytes, HeadFits}
use real_time_monitor_agent.Wire.Messages.{
  at, tcp_parameter-head_bytes, add_user_parameter-message, del_user_parameter-message,
  mod_media_parameter-message,
}
use real_time_monitor_agent.Scenes.{
  Task, res_login, rooms_info, mod_media, add_user_to, del_user_from, keep_alive, Dispatched,
  scheduled, dropped, get_proxy, schedule, message_type, by_type, tcp_param_scene, type_res_login,
  type_rooms_info, type_mod_media, type_add_user, type_del_user, type_keep_alive,
}

-- The messages, by the parameter that they stand for.
pub data Message : Type 0 where
  res_login_message : TcpParameter → Message
  rooms_info_message : RoomsInfoParameter → Message
  mod_media_message : ModMediaParameter → Message
  add_user_message : AddUserParameter → Message
  del_user_message : DelUserParameter → Message
  keep_alive_message : TcpParameter → Message

abbrev pub tcp_of : Message → TcpParameter
tcp_of (res_login_message p) = p
tcp_of (rooms_info_message p) = p.tcp
tcp_of (mod_media_message p) = p.tcp
tcp_of (add_user_message p) = p.tcp
tcp_of (del_user_message p) = p.tcp
tcp_of (keep_alive_message p) = p

abbrev pub type_of : Message → ℕ
type_of (res_login_message p) = type_res_login
type_of (rooms_info_message p) = type_rooms_info
type_of (mod_media_message p) = type_mod_media
type_of (add_user_message p) = type_add_user
type_of (del_user_message p) = type_del_user
type_of (keep_alive_message p) = type_keep_alive

-- What follows the four fields of the head.
abbrev pub body_of : Message → List ℕ → List ℕ
body_of (res_login_message p) rest = rest
body_of (rooms_info_message p) rest = network_bytes 4 p.room_count ++ rooms_bytes p.rooms_info rest
body_of (mod_media_message p) rest =
    network_bytes 4 p.room_id
    ++ (network_bytes 8 p.user_id
        ++ (network_bytes 4 p.audio_ssrc ++ (network_bytes 4 p.video_ssrc ++ rest)))
body_of (add_user_message p) rest =
    network_bytes 4 p.room_id ++ (network_bytes 8 p.user_id ++ (network_bytes 4 p.mic_id ++ rest))
body_of (del_user_message p) rest = network_bytes 4 p.room_id ++ (network_bytes 8 p.user_id ++ rest)
body_of (keep_alive_message p) rest = rest

-- The fields are in the ranges of their types, and no room has more than 255 users.
abbrev pub MessageFits : Message → Type 0
MessageFits (res_login_message p) = Unit
MessageFits (rooms_info_message p) =
    (p.room_count ≡ length p.rooms_info) × IsU32 p.room_count × All RoomFits p.rooms_info
MessageFits (mod_media_message p) =
    IsU32 p.room_id × (p.user_id < 2 ^ 64) × IsU32 p.audio_ssrc × IsU32 p.video_ssrc
MessageFits (add_user_message p) = IsU32 p.room_id × (p.user_id < 2 ^ 64) × IsU32 p.mic_id
MessageFits (del_user_message p) = IsU32 p.room_id × (p.user_id < 2 ^ 64)
MessageFits (keep_alive_message p) = Unit

abbrev pub task_of : Message → ℕ → Task
task_of (res_login_message p) a = res_login p a
task_of (rooms_info_message p) a = rooms_info p a
task_of (mod_media_message p) a = mod_media p a
task_of (add_user_message p) a = add_user_to p a
task_of (del_user_message p) a = del_user_from p a
task_of (keep_alive_message p) a = keep_alive p a

-- What should become of a message, from the entry of its proxy in the table.
abbrev pub outcome : Message → Option ℕ → Dispatched
outcome m none = dropped
outcome m (some a) = scheduled (task_of m a)

module _ (o : NetOrder) (linked : List (ℕ × ℕ)) where
  message_type-head_bytes :
      (h : TcpParameter) (rest : List ℕ)
      → IsU16 h.client_request_type
      → message_type o (head_bytes h rest) ≡ h.client_request_type
  message_type-head_bytes h rest fits =
      o.ntohs_loads (network_bytes 2 h.client_request_type)
        (network_bytes-IsByte 2 h.client_request_type) refl
      ∙ network_value-bytes_2 h.client_request_type fits

  schedules :
      {P : Type 0} (proxy_id : P → ℕ) (scene : P → ℕ → Task) (r : Parse P) (p : P) (c : Cursor)
      (m : Message)
      → r ≡ parsed p c
      → ((a : ℕ) → scene p a ≡ task_of m a)
      → proxy_id p ≡ (tcp_of m).proxy_id
      → schedule linked proxy_id scene r ≡ outcome m (get_proxy linked (tcp_of m).proxy_id)
  unfolding schedule
  schedules proxy_id scene r p c m e same id =
      rw e (by_entry (get_proxy linked (proxy_id p)) (ap (get_proxy linked) id))
    where
      by_entry :
          (entry : Option ℕ)
          → entry ≡ get_proxy linked (tcp_of m).proxy_id
          → (elim entry [ none ↦ dropped | some a ↦ scheduled (scene p a) ])
            ≡ outcome m (get_proxy linked (tcp_of m).proxy_id)
      by_entry none e' = ap (outcome m) e'
      by_entry (some a) e' = ap scheduled (same a) ∙ ap (outcome m) e'

  -- From the type on.
  by_type-outcome :
      (m : Message) (rest : List ℕ) (l : ℕ)
      → IsU16 (tcp_of m).length
      → HeadFits (tcp_of m)
      → MessageFits m
      → by_type o linked (type_of m) (at (head_bytes (tcp_of m) (body_of m rest)) l)
        ≡ outcome m (get_proxy linked (tcp_of m).proxy_id)
  unfolding by_type res_login_parameter keep_alive_parameter
  by_type-outcome (res_login_message p) rest l hl hh k =
      schedules _ _ _ p _ (res_login_message p) (tcp_parameter-head_bytes o p rest l hl hh)
        (λ a. refl) refl
  by_type-outcome (rooms_info_message p) rest l hl hh (count, small, rooms) =
      let (l', e) = rooms_info_parameter-message o p rest l hl hh count small rooms in
      schedules _ _ _ p _ (rooms_info_message p) e (λ a. refl) refl
  by_type-outcome (mod_media_message p) rest l hl hh (hr, hu, ha, hv) =
      schedules _ _ _ p _ (mod_media_message p)
        (mod_media_parameter-message o p rest l (hl, hh, hr, hu, ha, hv)) (λ a. refl) refl
  by_type-outcome (add_user_message p) rest l hl hh (hr, hu, hm) =
      schedules _ _ _ p _ (add_user_message p)
        (add_user_parameter-message o p rest l (hl, hh, hr, hu, hm)) (λ a. refl) refl
  by_type-outcome (del_user_message p) rest l hl hh (hr, hu) =
      schedules _ _ _ p _ (del_user_message p)
        (del_user_parameter-message o p rest l (hl, hh, hr, hu)) (λ a. refl) refl
  by_type-outcome (keep_alive_message p) rest l hl hh k =
      schedules _ _ _ p _ (keep_alive_message p) (tcp_parameter-head_bytes o p rest l hl hh)
        (λ a. refl) refl

  -- A message of each of the six kinds, laid out as the protocol says, with the type of its kind and
  -- anything behind it: it is handed to the scene of its kind with exactly its fields and its own proxy,
  -- and is dropped if its proxy is not in the table.
  pub tcp_param_scene-outcome :
      (m : Message) (rest : List ℕ) (l : ℕ)
      → 0 < l
      → IsU16 (tcp_of m).length
      → HeadFits (tcp_of m)
      → (tcp_of m).client_request_type ≡ type_of m
      → MessageFits m
      → tcp_param_scene o linked (at (head_bytes (tcp_of m) (body_of m rest)) l)
        ≡ outcome m (get_proxy linked (tcp_of m).proxy_id)
  unfolding tcp_param_scene
  tcp_param_scene-outcome m rest l pos hl hh type fits =
      ground (arith, size)
      ∙ ap (λ t. by_type o linked t (at (head_bytes (tcp_of m) (body_of m rest)) l))
          (message_type-head_bytes (tcp_of m) (body_of m rest) hh.0 ∙ type)
      ∙ by_type-outcome m rest l hl hh fits
    where
      size : 4 ≤ length (head_bytes (tcp_of m) (body_of m rest))
      size = omega arith
