-- ===== src/Wire/RoomsInfo.antt =====
-- RoomsInfoParameter of Scene/AvsProxyScene: rooms with their users, in two nested counted loops.
pub mod Loops
pub mod Reading
pub mod Bounds
use real_time_monitor_agent.Base.{
  ℕ, zero, suc, ◌+◌, ◌%◌, ◌^◌, List, [], ◌∷◌, ◌++◌, true, false, ltb, length, set,
}
use real_time_monitor_agent.Wire.Order.{NetOrder}
use real_time_monitor_agent.Wire.Cursor.{
  Cursor, Parse, parsed, stuck, Parser, pure, ◌>>=◌, ntoh_assign,
}
use real_time_monitor_agent.Wire.Parameters.{TcpParameter, tcp_parameter}

pub record UserInfo : Type 0 where
  pub user_id : ℕ
  pub mic_id : ℕ
  pub audio_ssrc : ℕ
  pub video_ssrc : ℕ

pub record RoomInfo : Type 0 where
  pub room_id : ℕ
  pub user_count : ℕ
  pub users_info : List UserInfo

pub record RoomsInfoParameter : Type 0 where
  pub tcp : TcpParameter
  pub room_count : ℕ
  pub rooms_info : List RoomInfo

-- `user_info_t()` and `room_info_t()`.
abbrev pub no_user : UserInfo
no_user = record { user_id = 0; mic_id = 0; audio_ssrc = 0; video_ssrc = 0 }

abbrev pub no_room : RoomInfo
no_room = record { room_id = 0; user_count = 0; users_info = [] }

module _ (o : NetOrder) where
  pub user_info : Parser UserInfo
  user_info = do
    user_id ← ntoh_assign o 8
    mic_id ← ntoh_assign o 4
    audio_ssrc ← ntoh_assign o 4
    video_ssrc ← ntoh_assign o 4
    pure (record {
      user_id = user_id;
      mic_id = mic_id;
      audio_ssrc = audio_ssrc;
      video_ssrc = video_ssrc;
    })

  -- `for(pj_uint8_t j = 0; j < user_count_; ++ j)`: the counter has 8 bits, the bound 32. Each
  -- round makes a new element and writes the element `j`.
  pub users_loop : ℕ → ℕ → ℕ → List UserInfo → Parser (List UserInfo)
  users_loop zero count j users c = stuck
  users_loop (suc fuel) count j users c = elim (ltb j count) [
    | true ↦
        (do
          user ← user_info
          users_loop fuel count ((j + 1) % 256) (set (users ++ (no_user ∷ [])) j user))
          c
    | false ↦ parsed users c
  ]

  -- A round of either loop takes a byte at least, so the bytes bound the rounds.
  abbrev pub all_users : ℕ → Parser (List UserInfo)
  all_users count c = users_loop (suc (length c.memory)) count 0 [] c

  pub room_info : Parser RoomInfo
  room_info = do
    room_id ← ntoh_assign o 4
    user_count ← ntoh_assign o 4
    users ← all_users user_count
    pure (record { room_id = room_id; user_count = user_count; users_info = users })

  pub rooms_loop : ℕ → ℕ → ℕ → List RoomInfo → Parser (List RoomInfo)
  rooms_loop zero count i rooms c = stuck
  rooms_loop (suc fuel) count i rooms c = elim (ltb i count) [
    | true ↦
        (do
          room ← room_info
          rooms_loop fuel count ((i + 1) % 2 ^ 32) (set (rooms ++ (no_room ∷ [])) i room))
          c
    | false ↦ parsed rooms c
  ]

  abbrev pub all_rooms : ℕ → Parser (List RoomInfo)
  all_rooms count c = rooms_loop (suc (length c.memory)) count 0 [] c

  pub rooms_info_parameter : Parser RoomsInfoParameter
  rooms_info_parameter = do
    tcp ← tcp_parameter o
    room_count ← ntoh_assign o 4
    rooms ← all_rooms room_count
    pure (record { tcp = tcp; room_count = room_count; rooms_info = rooms })
