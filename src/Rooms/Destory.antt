-- ===== src/Rooms/Destory.antt =====
-- OnDestory of a room: the loop deletes every user (Monitor/Monitor/TitleRoom.cpp).
use real_time_monitor_agent.Base.{
  ℕ, zero, suc, ◌≡◌, ◌≤◌, ◌≢◌, refl, ap, ◌∙◌, List, [], ◌∷◌, Option, none, some, false, arith,
  length,
}
use real_time_monitor_agent.Base.OrdMap.{lookup, erase, behind, IsMap, lookup-erase}
use real_time_monitor_agent.Store.{Store, User, TitleRoom, ok, update}
use real_time_monitor_agent.Rooms.{del_user, destory_users, on_destory}
use real_time_monitor_agent.Rooms.Membership.{Housing, del_user-Removed}
use real_time_monitor_agent.Wall.Invariant.{Sound}

-- What the loop leaves of the room `room`.
record Emptied (r : ℕ) (room : TitleRoom) (st st' : Store) : Type 0 where
  housing : Housing r (record room { locked = false; users = [] }) st'
  gone : (k p : ℕ) → lookup k room.users ≡ some p → st'.users p ≡ none
  stays : (q : ℕ) → st.users q ≡ none → st'.users q ≡ none
  other_rooms : (q : ℕ) → q ≢ r → st'.rooms q ≡ st.rooms q
  sent : st'.sent ≡ st.sent
  proxies : st'.proxies ≡ st.proxies
  config : st'.config ≡ st.config

-- A round on the first entry, with the entry and the iterator as the loop computes them.
round :
    (fuel r k p : ℕ) (it : List (ℕ × ℕ)) (u : User) (st st₁ st₂ : Store)
    → st.users p ≡ some u
    → u.user_id ≡ k
    → del_user r k st ≡ ok (behind k ((k, p) ∷ it)) st₁
    → destory_users fuel r it st₁ ≡ ok tt st₂
    → destory_users (suc fuel) r ((k, p) ∷ it) st ≡ ok tt st₂
unfolding destory_users behind
round fuel r k p it u st st₁ st₂ h id e rest = ground arith

-- An entry of the room is the one that was erased, or is in the rest.
gone_or_erased :
    (k p j q : ℕ) (room : TitleRoom) (users : ℕ → Option User)
    → IsMap room.users
    → lookup k room.users ≡ some p
    → users p ≡ none
    → (lookup j (erase k room.users) ≡ some q → users q ≡ none)
    → lookup j room.users ≡ some q
    → users q ≡ none
gone_or_erased k p j q room users keyed found gone rest x =
    ground (arith, lookup-erase k j room.users keyed)

destory_users-Emptied :
    (fuel r : ℕ) (room : TitleRoom) (it : List (ℕ × ℕ)) (st : Store)
    → Housing r room st
    → room.users ≡ it
    → length it ≤ fuel
    → (st' : Store) × (destory_users fuel r it st ≡ ok tt st') × Emptied r room st st'
unfolding destory_users lookup erase
destory_users-Emptied fuel r room [] st v e enough = (
  st,
  refl,
  record {
    housing = record {
      sound = v.sound;
      here = ground (arith, v.here, v.unlocked);
      unlocked = refl;
      keyed = tt;
      lives = λ k p x. ground arith;
    };
    gone = λ k p x. ground (arith);
    stays = λ q x. x;
    other_rooms = λ q ne. refl;
    sent = refl;
    proxies = refl;
    config = refl;
  },
)
destory_users-Emptied zero r room ((k, p) ∷ it) st v e enough = absurd (omega arith)
destory_users-Emptied (suc fuel) r room ((k, p) ∷ it) st v e enough =
    let found : lookup k room.users ≡ some p = ground arith in
    let (u, h, id) = v.lives k p found in
    let (st₁, e₁, d) = del_user-Removed r k p room st v found in
    let left : erase k room.users ≡ it = ground arith in
    let (st₂, e₂, c) =
      destory_users-Emptied fuel r (record room { locked = false; users = erase k room.users }) it
        st₁ d.housing left (omega arith) in
    (
      st₂,
      round fuel r k p it u st st₁ st₂ h id (e₁ ∙ ap (λ l. ok (behind k l) st₁) e) e₂,
      record {
        housing = c.housing;
        gone = λ j q x.
            gone_or_erased k p j q room st₂.users v.keyed found (c.stays p d.gone) (c.gone j q) x;
        stays = λ q x. c.stays q (d.stays q x);
        other_rooms = λ q ne. c.other_rooms q ne ∙ d.other_rooms q ne;
        sent = c.sent ∙ d.sent;
        proxies = c.proxies ∙ d.proxies;
        config = c.config ∙ d.config;
      },
    )

-- OnDestory of a room whose entries are distinct and point at living users, with no lock held,
-- returns: every user of the room is deleted and has left its screen, the room is empty and belongs
-- to no proxy, no other room changes, no proxy changes, no deleted user comes back, and
-- nothing is sent.
pub on_destory-empties :
    (r : ℕ) (room : TitleRoom) (st : Store)
    → Housing r room st
    → (st' : Store) × (on_destory r st ≡ ok tt st')
      × Sound st'
      × (st'.rooms r ≡ some (record { id = room.id; proxy = none; users = []; locked = false }))
      × ((k p : ℕ) → lookup k room.users ≡ some p → st'.users p ≡ none)
      × ((q : ℕ) → st.users q ≡ none → st'.users q ≡ none)
      × ((q : ℕ) → q ≢ r → st'.rooms q ≡ st.rooms q)
      × (st'.sent ≡ st.sent)
      × (st'.proxies ≡ st.proxies)
      × (st'.config ≡ st.config)
unfolding on_destory
on_destory-empties r room st v =
    let (st₁, e, c) =
      destory_users-Emptied (length room.users) r room room.users st v refl (omega arith) in
    (
      record st₁ {
        rooms =
            update st₁.rooms r
              (some (record { id = room.id; proxy = none; users = []; locked = false }));
      },
      ground (arith, v.here, c.housing.here),
      record {
        linked = c.housing.sound.linked;
        free = c.housing.sound.free;
        housed = c.housing.sound.housed;
      },
      ground arith,
      c.gone,
      c.stays,
      (λ q ne. ground (arith, c.other_rooms q)),
      c.sent,
      c.proxies,
      c.config,
    )
