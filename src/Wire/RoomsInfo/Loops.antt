-- ===== src/Wire/RoomsInfo/Loops.antt =====
-- The rounds of the two loops of RoomsInfoParameter, and what they do on any bytes.
use real_time_monitor_agent.Base.{
  ℕ, suc, ◌+◌, ◌%◌, ◌^◌, ◌≤◌, ◌<◌, ◌≡◌, List, [], ◌∷◌, ◌++◌, arith, set,
}
use real_time_monitor_agent.Wire.Order.{NetOrder}
use real_time_monitor_agent.Wire.Cursor.{Cursor, parsed, ◌>>=◌}
use real_time_monitor_agent.Wire.RoomsInfo.{
  UserInfo, RoomInfo, no_user, no_room, user_info, users_loop, room_info, rooms_loop,
}

module _ (o : NetOrder) (fuel count i : ℕ) where
  pub users_loop_more :
      (us : List UserInfo) (c : Cursor)
      → i < count
      → users_loop o (suc fuel) count i us c
        ≡ (user_info o >>= λ user.
              users_loop o fuel count ((i + 1) % 256) (set (us ++ (no_user ∷ [])) i user))
            c
  unfolding users_loop
  users_loop_more us c h = ground arith

  pub users_loop_done :
      (us : List UserInfo) (c : Cursor)
      → count ≤ i
      → users_loop o (suc fuel) count i us c ≡ parsed us c
  unfolding users_loop
  users_loop_done us c h = ground arith

  pub rooms_loop_more :
      (rs : List RoomInfo) (c : Cursor)
      → i < count
      → rooms_loop o (suc fuel) count i rs c
        ≡ (room_info o >>= λ room.
              rooms_loop o fuel count ((i + 1) % 2 ^ 32) (set (rs ++ (no_room ∷ [])) i room))
            c
  unfolding rooms_loop
  rooms_loop_more rs c h = ground arith

  pub rooms_loop_done :
      (rs : List RoomInfo) (c : Cursor)
      → count ≤ i
      → rooms_loop o (suc fuel) count i rs c ≡ parsed rs c
  unfolding rooms_loop
  rooms_loop_done rs c h = ground arith
