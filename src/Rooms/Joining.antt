-- ===== src/Rooms/Joining.antt =====
-- GetUser and AddUser of a room (Monitor/Monitor/TitleRoom.cpp).
use real_time_monitor_agent.Base.{ℕ, suc, ◌≡◌, ◌≢◌, refl, Option, none, some, true, false, arith}
use native.Mathlib.Decide.{ℕ_discrete}
use real_time_monitor_agent.Base.OrdMap.{lookup, insert, lookup-insert, insert-IsMap}
use real_time_monitor_agent.Store.{Store, User, TitleRoom, ok, deadlock, update}
use real_time_monitor_agent.Rooms.{with_room_lock, new_user, add_user, get_user, rank64}
use real_time_monitor_agent.Rooms.Invariant.{alloc_user-Keeps}
use real_time_monitor_agent.Rooms.Membership.{Housing}
use real_time_monitor_agent.Wall.Invariant.{Sound}

pub get_user-known :
    (r user_id p : ℕ) (room : TitleRoom) (st : Store)
    → Housing r room st
    → lookup user_id room.users ≡ some p
    → (st' : Store) × (get_user r user_id st ≡ ok p st')
      × ((q : ℕ) → st'.rooms q ≡ st.rooms q)
      × (st'.users ≡ st.users)
      × (st'.sent ≡ st.sent)
unfolding get_user with_room_lock
get_user-known r user_id p room st v found = (
  record st {
    rooms =
        update (update st.rooms r (some (record room { locked = true }))) r
          (some (record room { locked = false }));
  },
  ground (arith, v.here, v.unlocked),
  (λ q. ground (arith, v.here, v.unlocked)),
  refl,
  refl,
)

pub get_user-unknown :
    (r user_id : ℕ) (room : TitleRoom) (st : Store)
    → Housing r room st
    → lookup user_id room.users ≡ none
    → get_user r user_id st ≡ deadlock
unfolding get_user with_room_lock add_user
get_user-unknown r user_id room st v unknown = ground (arith, v.here, v.unlocked)

-- What GetUser should do, from the entry of the room for the user.
abbrev pub Fetched : ℕ → ℕ → Store → Option ℕ → Type 0
Fetched r user_id st (some p) =
    (st' : Store) × (get_user r user_id st ≡ ok p st')
    × ((q : ℕ) → st'.rooms q ≡ st.rooms q)
    × (st'.users ≡ st.users)
    × (st'.sent ≡ st.sent)
Fetched r user_id st none = get_user r user_id st ≡ deadlock

-- GetUser of a user that the room has returns it and leaves the store as it was; of any other user it
-- never returns: it calls AddUser, which takes the lock that GetUser holds.
pub get_user-returns_or_deadlocks :
    (r user_id : ℕ) (room : TitleRoom) (st : Store)
    → Housing r room st
    → Fetched r user_id st (lookup user_id room.users)
get_user-returns_or_deadlocks r user_id room st v = by_entry (lookup user_id room.users) refl
  where
    by_entry : (o : Option ℕ) → lookup user_id room.users ≡ o → Fetched r user_id st o
    by_entry (some p) found = get_user-known r user_id p room st v found
    by_entry none unknown = get_user-unknown r user_id room st v unknown

-- AddUser of a user that the room does not have returns the address of a new user, which is on no
-- screen and has no media, and adds it to the room; all other users are as they were.
pub add_user-adds :
    (r user_id mic_id : ℕ) (room : TitleRoom) (st : Store)
    → Housing r room st
    → lookup user_id room.users ≡ none
    → (st' : Store) × (add_user r user_id mic_id st ≡ ok st.fresh st')
      × Housing r
          (record room { locked = false; users = insert rank64 user_id st.fresh room.users })
          st'
      × (st'.users st.fresh ≡ some (new_user user_id mic_id r))
      × ((q : ℕ) → q ≢ st.fresh → st'.users q ≡ st.users q)
      × ((s : ℕ) → st'.screens s ≡ st.screens s)
unfolding add_user with_room_lock
add_user-adds r user_id mic_id room st v unknown = (
  record st {
    users = update st.users st.fresh (some (new_user user_id mic_id r));
    fresh = suc st.fresh;
    rooms =
        update
          (update (update st.rooms r (some (record room { locked = true }))) r (
            some
              (record room { locked = true; users = insert rank64 user_id st.fresh room.users })))
          r
          (some
            (record room { locked = false; users = insert rank64 user_id st.fresh room.users }));
  },
  ground (arith, v.here, v.unlocked),
  record {
    sound = sound;
    here = ground arith;
    unlocked = refl;
    keyed = insert-IsMap rank64 user_id st.fresh room.users unknown v.keyed;
    lives = lives;
  },
  ground arith,
  (λ q ne. ground arith),
  λ s. refl,
)
  where
    sound :
        {f : ℕ → Option TitleRoom}
        → Sound (record st {
          users = update st.users st.fresh (some (new_user user_id mic_id r));
          fresh = suc st.fresh;
          rooms = f;
        })
    sound =
        let w = (alloc_user-Keeps user_id mic_id r).run st v.sound in
        record { linked = w.linked; free = w.free; housed = w.housed }

    lives :
        (k p : ℕ)
        → lookup k (insert rank64 user_id st.fresh room.users) ≡ some p
        → (u : User) × (update st.users st.fresh (some (new_user user_id mic_id r)) p ≡ some u)
          × (u.user_id ≡ k)
    lives k p x = elim (ℕ_discrete user_id k) [
      | yes e ↦ (
        new_user user_id mic_id r,
        ground (arith, lookup-insert rank64 user_id k st.fresh room.users unknown),
        e,
      )
      | no ne ↦
          let (u, h, id) =
            v.lives k p
              (ground (arith, lookup-insert rank64 user_id k st.fresh room.users unknown)) in
          (u, ground (arith, h, v.sound.free st.fresh), id)
    ]
