-- ===== src/Rooms/Invariant.antt =====
-- The methods of `TitleRoom` keep users and screens linked both ways (Monitor/Monitor/TitleRoom.cpp).
use real_time_monitor_agent.Base.{
  ℕ, zero, suc, ◌≡◌, refl, List, [], ◌∷◌, Option, none, some, true, false, arith, length,
}
use real_time_monitor_agent.Base.OrdMap.{lookup, insert, erase, behind}
use real_time_monitor_agent.Store.{
  Store, User, TitleRoom, M, success, put_user, put_room, update, invalid_screen_index,
}
use real_time_monitor_agent.Store.Keeps.{
  Keeps, Runs, Runs-bind, Runs-weaken, Runs-equal, Keeps-pure, Runs-option, Runs-bool,
  Runs-deadlock, Runs-user_at, Keeps-room_at,
}
use real_time_monitor_agent.Users.{index_user, mod_media, screen_disconnect_user}
use real_time_monitor_agent.Users.Consistent.{
  detached, screen_disconnect_user-detached, edit-Consistent, delete-Consistent, new-Consistent,
}
use real_time_monitor_agent.Rooms.{
  with_room_lock, alloc_user, delete_user, add_user, drop_user, del_user, get_user, mod_user,
  new_user, rank64, destory_users, on_destory,
}
use real_time_monitor_agent.Wall.Invariant.{Sound, detached-Sound}

pub Keeps-put_room : (r : ℕ) (room : TitleRoom) → Keeps Sound (put_room r room)
Keeps-put_room r room = record {
  run = λ st v. record { linked = v.linked; free = v.free; housed = v.housed };
}

pub with_room_lock-Keeps :
    {A : Type 0} (r : ℕ) (body : M A) → Keeps Sound body → Keeps Sound (with_room_lock r body)
unfolding with_room_lock
with_room_lock-Keeps r body keep = Runs-bind (Keeps-room_at r) λ room.
    Runs-bool room.locked (λ locked. Runs-deadlock)
      λ unlocked. Runs-bind (Keeps-put_room r (record room { locked = true })) λ x.
        Runs-bind keep λ a. Runs-bind (Keeps-room_at r) λ room'.
          Runs-bind (Keeps-put_room r (record room' { locked = false })) λ y. Keeps-pure {a = a}

-- A change of a user that leaves its screen and its room as they are.
pub edited-Sound :
    (p : ℕ) (u w : User) (st : Store)
    → Sound st
    → st.users p ≡ some u
    → w.screen ≡ u.screen
    → w.screen_idx ≡ u.screen_idx
    → w.title_room ≡ u.title_room
    → Sound (record st { users = update st.users p (some w) })
edited-Sound p u w st v h e e' e'' = record {
  linked = edit-Consistent st.users st.screens v.linked p p u h w e e';
  free = λ q x. ground (arith, v.free q);
  housed = λ q z x. ground (arith, v.housed q z, v.housed p u);
}

-- A user that is on no screen is deleted.
pub deleted-Sound :
    (p : ℕ) (u : User) (st : Store)
    → Sound st
    → st.users p ≡ some u
    → u.screen ≡ none
    → Sound (record st { users = update st.users p none })
deleted-Sound p u st v h off = record {
  linked = delete-Consistent st.users st.screens v.linked p p u h off;
  free = λ q x. ground (arith, v.free q);
  housed = λ q z x. ground (arith, v.housed q z);
}

put_user-Keeps :
    (p : ℕ) (u w : User)
    → w.screen ≡ u.screen
    → w.screen_idx ≡ u.screen_idx
    → w.title_room ≡ u.title_room
    → Runs (λ st. Sound st × (st.users p ≡ some u)) (put_user p w) (λ x. Sound)
put_user-Keeps p u w e e' e'' = record { run = λ st v. edited-Sound p u w st v.0 v.1 e e' e'' }

pub alloc_user-Keeps : (user_id mic_id r : ℕ) → Keeps Sound (alloc_user (new_user user_id mic_id r))
alloc_user-Keeps user_id mic_id r = record {
  run = λ st v. record {
    linked =
        new-Consistent st.users st.screens st.fresh _ v.linked (v.free st.fresh (omega arith)) refl;
    free = λ q x. ground (arith, v.free q);
    housed = λ q w x. ground (arith, v.housed q w);
  };
}

index_user-Keeps : (u : User) (idx : ℕ) → Keeps Sound (index_user u idx)
index_user-Keeps u idx = record {
  run = λ st v. record { linked = v.linked; free = v.free; housed = v.housed };
}

pub add_user-Keeps : (r user_id mic_id : ℕ) → Keeps Sound (add_user r user_id mic_id)
unfolding add_user
add_user-Keeps r user_id mic_id = with_room_lock-Keeps r _ (
    Runs-bind (Keeps-room_at r) λ room.
      Runs-option (lookup user_id room.users)
        (λ e. Runs-bind (alloc_user-Keeps user_id mic_id r) λ p.
          Runs-bind (Keeps-put_room r (record room { users = insert rank64 user_id p room.users }))
            λ x. Keeps-pure {a = p})
        λ p e. Runs-bind (Runs-user_at p) λ u.
          Runs-bind (put_user-Keeps p u (record u { mic_id = mic_id }) refl refl refl)
            λ x. Keeps-pure {a = p})

-- A user on no screen.
record Leaving (p : ℕ) (st : Store) : Type 0 where
  sound : Sound st
  user : User
  lives : st.users p ≡ some user
  off : user.screen ≡ none

drop_user-Keeps : (p : ℕ) → Keeps Sound (drop_user p)
unfolding drop_user
drop_user-Keeps p = Runs-bind (Runs-user_at p) λ u.
    Runs-option u.screen
      (λ off.
        Runs-weaken (λ st v. record { sound = v.0; user = u; lives = v.1; off = off }) delete
          (λ x st w. w))
      λ s on. Runs-bind (disconnect u s on) λ x. delete
  where
    delete : Runs (Leaving p) (delete_user p) (λ x. Sound)
    delete = record { run = λ st v. deleted-Sound p v.user st v.sound v.lives v.off }

    -- The screen of the user is disconnected, so the user is on none.
    disconnect :
        (u : User) (s : ℕ)
        → u.screen ≡ some s
        → Runs (λ st. Sound st × (st.users p ≡ some u)) (screen_disconnect_user s) (λ x. Leaving p)
    disconnect u s on = record {
      run = λ st v.
          let shows : (st.screens s).user ≡ some p = (v.0.linked.shown p s u v.1 on).0 in
          Runs-equal (λ x. Leaving p) (screen_disconnect_user s) st success (detached s p u st)
            (screen_disconnect_user-detached s p u st shows v.1)
            (record {
              sound = detached-Sound s p u st v.0 shows v.1;
              user = record u { screen = none; screen_idx = invalid_screen_index };
              lives = ground arith;
              off = refl;
            });
    }

pub del_user-Keeps : (r user_id : ℕ) → Keeps Sound (del_user r user_id)
unfolding del_user
del_user-Keeps r user_id = with_room_lock-Keeps r _ (
    Runs-bind (Keeps-room_at r) λ room.
      Runs-option (lookup user_id room.users) (λ e. Keeps-pure)
        λ p e.
          Runs-bind (Keeps-put_room r (record room { users = erase user_id room.users }))
            λ x. Runs-bind (drop_user-Keeps p) λ y. Keeps-pure {a = behind user_id room.users})

pub get_user-Keeps : (r user_id : ℕ) → Keeps Sound (get_user r user_id)
unfolding get_user
get_user-Keeps r user_id = with_room_lock-Keeps r _ (
    Runs-bind (Keeps-room_at r) λ room.
      Runs-option (lookup user_id room.users) (λ e. add_user-Keeps r user_id 0) λ p e. Keeps-pure)

pub mod_user-Keeps :
    (r : ℕ) (user : Option ℕ) (audio_ssrc video_ssrc : ℕ)
    → Keeps Sound (mod_user r user audio_ssrc video_ssrc)
unfolding mod_user mod_media
mod_user-Keeps r none audio_ssrc video_ssrc = Keeps-pure
mod_user-Keeps r (some p) audio_ssrc video_ssrc = with_room_lock-Keeps r _ (
    Runs-bind (Runs-user_at p) λ u.
      Runs-bind
        (put_user-Keeps p u (record u { audio_ssrc = audio_ssrc; video_ssrc = video_ssrc }) refl
          refl refl)
        λ x.
          Runs-option u.screen (λ e. Keeps-pure)
            λ s e.
              index_user-Keeps (record u { audio_ssrc = audio_ssrc; video_ssrc = video_ssrc })
                u.screen_idx)

destory_users-Keeps : (fuel r : ℕ) (it : List (ℕ × ℕ)) → Keeps Sound (destory_users fuel r it)
unfolding destory_users
destory_users-Keeps fuel r [] = record { run = λ st v. v }
destory_users-Keeps zero r ((k, p) ∷ it) = record { run = λ st v. tt }
destory_users-Keeps (suc fuel) r ((k, p) ∷ it) =
    Runs-bind (Runs-weaken (λ st v. v) (Runs-user_at p) (λ u st w. w.0))
      λ u. Runs-bind (del_user-Keeps r u.user_id) λ it'. destory_users-Keeps fuel r it'

pub on_destory-Keeps : (r : ℕ) → Keeps Sound (on_destory r)
unfolding on_destory
on_destory-Keeps r = Runs-bind (Keeps-room_at r) λ room.
    Runs-bind (destory_users-Keeps (length room.users) r room.users)
      λ x. Runs-bind (Keeps-room_at r) λ room'. Keeps-put_room r (record room' { proxy = none })
