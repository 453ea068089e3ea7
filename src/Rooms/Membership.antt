-- ===== src/Rooms/Membership.antt =====
-- Which users a room has: DelUser, and OnDestory with its loop (Monitor/Monitor/TitleRoom.cpp).
use real_time_monitor_agent.Base.{
  ℕ, ◌≡◌, ◌≢◌, refl, ◌∙◌, none, some, true, false, arith, inl, inr, Option-cases,
}
use real_time_monitor_agent.Base.OrdMap.{lookup, erase, behind, IsMap, lookup-erase, erase-IsMap}
use real_time_monitor_agent.Store.{Store, User, TitleRoom, ok, update, invalid_screen_index}
use real_time_monitor_agent.Users.Consistent.{detached, screen_disconnect_user-detached}
use real_time_monitor_agent.Rooms.{with_room_lock, drop_user, del_user}
use real_time_monitor_agent.Rooms.Invariant.{deleted-Sound}
use real_time_monitor_agent.Wall.Invariant.{Sound, detached-Sound}

-- What the block of DelUser on the user at `p` leaves.
pub record Dropped (p : ℕ) (st st' : Store) : Type 0 where
  pub sound : Sound st'
  pub gone : st'.users p ≡ none
  pub others : (q : ℕ) → q ≢ p → st.users q ≡ none → st'.users q ≡ none
  pub same_id :
      (q : ℕ) (u : User)
      → q ≢ p
      → st.users q ≡ some u
      → (w : User) × (st'.users q ≡ some w) × (w.user_id ≡ u.user_id)
  pub rooms : st'.rooms ≡ st.rooms
  pub sent : st'.sent ≡ st.sent
  pub proxies : st'.proxies ≡ st.proxies
  pub config : st'.config ≡ st.config

pub drop_user-Dropped :
    (p : ℕ) (u : User) (st : Store)
    → Sound st
    → st.users p ≡ some u
    → (st' : Store) × (drop_user p st ≡ ok tt st') × Dropped p st st'
unfolding drop_user
drop_user-Dropped p u st v h = elim (Option-cases u.screen) [
  | inl off ↦ (
    record st { users = update st.users p none },
    ground arith,
    record {
      sound = deleted-Sound p u st v h off;
      gone = ground arith;
      others = λ q ne e. ground arith;
      same_id = λ q w ne e. (w, ground arith, refl);
      rooms = refl;
      sent = refl;
      proxies = refl;
      config = refl;
    },
  )
  | inr (s, on) ↦
      let shows : (st.screens s).user ≡ some p = (v.linked.shown p s u h on).0 in
      let st₁ : Store = detached s p u st in
      (
        record st₁ { users = update st₁.users p none },
        ground (arith, screen_disconnect_user-detached s p u st shows h),
        record {
          sound =
              deleted-Sound p (record u { screen = none; screen_idx = invalid_screen_index }) st₁
                (detached-Sound s p u st v shows h) (ground arith) refl;
          gone = ground arith;
          others = λ q ne e. ground arith;
          same_id = λ q w ne e. (w, ground arith, refl);
          rooms = refl;
          sent = refl;
          proxies = refl;
          config = refl;
        },
      )
]

-- A room that is not locked, whose entries are distinct and point at users with the number of the entry.
pub record Housing (r : ℕ) (room : TitleRoom) (st : Store) : Type 0 where
  pub sound : Sound st
  pub here : st.rooms r ≡ some room
  pub unlocked : room.locked ≡ false
  pub keyed : IsMap room.users
  pub lives :
      (k p : ℕ)
      → lookup k room.users ≡ some p
      → (u : User) × (st.users p ≡ some u) × (u.user_id ≡ k)

-- The store in DelUser before and behind its block.
abbrev unlinked : ℕ → ℕ → TitleRoom → Store → Store
unlinked r user_id room st = record st {
  rooms =
      update (update st.rooms r (some (record room { locked = true }))) r
        (some (record room { locked = true; users = erase user_id room.users }));
}

abbrev relocked : ℕ → ℕ → TitleRoom → Store → Store
relocked r user_id room st = record st {
  rooms =
      update st.rooms r (some (record room { locked = false; users = erase user_id room.users }));
}

del_user-runs :
    (r user_id p : ℕ) (room : TitleRoom) (st st₁ : Store)
    → st.rooms r ≡ some room
    → room.locked ≡ false
    → lookup user_id room.users ≡ some p
    → drop_user p (unlinked r user_id room st) ≡ ok tt st₁
    → st₁.rooms ≡ (unlinked r user_id room st).rooms
    → del_user r user_id st ≡ ok (behind user_id room.users) (relocked r user_id room st₁)
unfolding del_user with_room_lock
del_user-runs r user_id p room st st₁ here open_ found dropped kept = ground (arith, kept, dropped)

-- What DelUser of the user at `p` leaves.
pub record Removed (r user_id p : ℕ) (room : TitleRoom) (st st' : Store) : Type 0 where
  pub housing : Housing r (record room { locked = false; users = erase user_id room.users }) st'
  pub gone : st'.users p ≡ none
  pub stays : (q : ℕ) → st.users q ≡ none → st'.users q ≡ none
  pub other_rooms : (q : ℕ) → q ≢ r → st'.rooms q ≡ st.rooms q
  pub sent : st'.sent ≡ st.sent
  pub proxies : st'.proxies ≡ st.proxies
  pub config : st'.config ≡ st.config

erased-lives :
    (r user_id p k q : ℕ) (room : TitleRoom) (st st₁ : Store)
    → Housing r room st
    → lookup user_id room.users ≡ some p
    → Dropped p (unlinked r user_id room st) st₁
    → lookup k (erase user_id room.users) ≡ some q
    → (u : User) × (st₁.users q ≡ some u) × (u.user_id ≡ k)
erased-lives r user_id p k q room st st₁ v found d found' =
    let (u, h, id) = v.lives user_id p found in
    let (w, h', id') = v.lives k q (ground (arith, lookup-erase user_id k room.users v.keyed)) in
    let ne : q ≢ p =
      λ e. ground (arith, lookup-erase user_id k room.users v.keyed, h, h', id, id') in
    let (z, h'', id'') = d.same_id q w ne h' in (z, h'', id'' ∙ id')

-- DelUser of a user that the room has returns: the user leaves its screen, is deleted and is no
-- longer in the room, whose other users stay; no other room changes and nothing is sent.
pub del_user-Removed :
    (r user_id p : ℕ) (room : TitleRoom) (st : Store)
    → Housing r room st
    → lookup user_id room.users ≡ some p
    → (st' : Store) × (del_user r user_id st ≡ ok (behind user_id room.users) st')
      × Removed r user_id p room st st'
del_user-Removed r user_id p room st v found =
    let (u, h, id) = v.lives user_id p found in
    let before : Sound (unlinked r user_id room st) = record {
      linked = v.sound.linked;
      free = v.sound.free;
      housed = v.sound.housed;
    } in
    let (st₁, e, d) = drop_user-Dropped p u (unlinked r user_id room st) before h in
    (
      relocked r user_id room st₁,
      del_user-runs r user_id p room st st₁ v.here v.unlocked found e d.rooms,
      record {
        housing = record {
          sound = record { linked = d.sound.linked; free = d.sound.free; housed = d.sound.housed };
          here = ground arith;
          unlocked = refl;
          keyed = erase-IsMap user_id room.users v.keyed;
          lives = λ k q x. erased-lives r user_id p k q room st st₁ v found d x;
        };
        gone = d.gone;
        stays = λ q x. ground (arith, d.others q, d.gone);
        other_rooms = λ q ne. ground (arith, d.rooms);
        sent = d.sent;
        proxies = d.proxies;
        config = d.config;
      },
    )
