-- ===== src/Rooms.antt =====
-- The methods of `TitleRoom` that manage its users (Monitor/Monitor/TitleRoom.cpp). The items of the
-- tree control that they insert and delete are not modelled.
pub mod Invariant
pub mod Membership
pub mod Destory
pub mod Joining
pub mod Examples
use real_time_monitor_agent.Base.{
  ℕ, zero, suc, ◌+◌, ◌%◌, ◌^◌, List, [], ◌∷◌, Option, none, some, Bool, true, false, length,
}
use real_time_monitor_agent.Base.Words.{add32}
use real_time_monitor_agent.Base.OrdMap.{lookup, insert, erase, behind}
use real_time_monitor_agent.Store.{
  Store, User, TitleRoom, M, Outcome, ok, deadlock, fault, stuck, pure, ◌>>=◌, ◌>>◌, update,
  PjStatus, user_at, put_user, room_at, put_room, invalid_screen_index,
}
use real_time_monitor_agent.Users.{mod_media, screen_disconnect_user}

-- The order of `pj_int64_t` and of `pj_int32_t` on bit patterns.
abbrev pub rank64 : ℕ → ℕ
rank64 v = (v + 2 ^ 63) % 2 ^ 64

abbrev pub rank32 : ℕ → ℕ
rank32 v = (v + 2 ^ 31) % 2 ^ 32

-- `lock_guard<mutex> lock(room_lock_)` round a body. The mutex is not recursive.
unfoldable pub with_room_lock : {A : Type 0} → ℕ → M A → M A
with_room_lock r body = do
  room ← room_at r
  elim room.locked [
    | true ↦ (λ st. deadlock)
    | false ↦ do
      put_room r (record room { locked = true })
      a ← body
      room' ← room_at r
      put_room r (record room' { locked = false })
      pure a
  ]

-- `new User(user_id, mic_id, this)`.
abbrev pub new_user : ℕ → ℕ → ℕ → User
new_user user_id mic_id r = record {
  user_id = user_id;
  mic_id = mic_id;
  screen = none;
  screen_idx = invalid_screen_index;
  title_room = some r;
  audio_ssrc = 0;
  video_ssrc = 0;
}

abbrev pub alloc_user : User → M ℕ
alloc_user u st =
    ok st.fresh (record st { users = update st.users st.fresh (some u); fresh = suc st.fresh })

abbrev pub delete_user : ℕ → M (Unit {0})
delete_user p st = ok tt (record st { users = update st.users p none })

unfoldable pub add_user : ℕ → ℕ → ℕ → M ℕ
unfolding with_room_lock
add_user r user_id mic_id = with_room_lock r do
  room ← room_at r
  elim (lookup user_id room.users) [
    | some p ↦ do u ← user_at p; put_user p (record u { mic_id = mic_id }); pure p
    | none ↦ do
      p ← alloc_user (new_user user_id mic_id r)
      put_room r (record room { users = insert rank64 user_id p room.users })
      pure p
  ]

-- The block `if(user != nullptr)` of DelUser.
unfoldable pub drop_user : ℕ → M (Unit {0})
drop_user p = do
  u ← user_at p
  elim u.screen [ some s ↦ do screen_disconnect_user s; delete_user p | none ↦ delete_user p ]

-- The result is the iterator `puser`.
unfoldable pub del_user : ℕ → ℕ → M (List (ℕ × ℕ))
unfolding with_room_lock drop_user
del_user r user_id = with_room_lock r do
  room ← room_at r
  elim (lookup user_id room.users) [
    | some p ↦ do
      put_room r (record room { users = erase user_id room.users })
      drop_user p
      pure (behind user_id room.users)
    | none ↦ pure []
  ]

unfoldable pub get_user : ℕ → ℕ → M ℕ
unfolding with_room_lock add_user
get_user r user_id = with_room_lock r do
  room ← room_at r
  elim (lookup user_id room.users) [ some p ↦ pure p | none ↦ add_user r user_id 0 ]

unfoldable pub mod_user : ℕ → Option ℕ → ℕ → ℕ → M (Unit {0})
unfolding with_room_lock
mod_user r none audio_ssrc video_ssrc = pure tt
mod_user r (some p) audio_ssrc video_ssrc = with_room_lock r (mod_media p audio_ssrc video_ssrc)

unfoldable pub increase_count : ℕ → ℕ → M ℕ
unfolding with_room_lock
increase_count r user_count =
    with_room_lock r do room ← room_at r; pure (add32 user_count (length room.users))

unfoldable pub on_create : ℕ → ℕ → M (Unit {0})
on_create r a = do room ← room_at r; put_room r (record room { proxy = some a })

-- The loop of OnDestory: each round deletes the user under the iterator and goes on behind it.
unfoldable pub destory_users : ℕ → ℕ → List (ℕ × ℕ) → M (Unit {0})
destory_users fuel r [] st = ok tt st
destory_users zero r ((k, p) ∷ it) st = stuck
destory_users (suc fuel) r ((k, p) ∷ it) st =
    (do u ← user_at p; it' ← del_user r u.user_id; destory_users fuel r it') st

unfoldable pub on_destory : ℕ → M (Unit {0})
on_destory r = do
  room ← room_at r
  destory_users (length room.users) r room.users
  room' ← room_at r
  put_room r (record room' { proxy = none })
