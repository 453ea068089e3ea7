-- ===== src/Wall/Emptied.antt =====
-- What CleanScreens leaves of the users, rooms and proxies (Monitor/Monitor/ScreenMgr.cpp).
use real_time_monitor_agent.Base.{
  ℕ, zero, suc, ◌+◌, ◌<◌, ◌≡◌, ◌≢◌, refl, none, some, ◌==◌, ◌⊎◌, inl, inr, arith, Option-cases,
  Bool-cases,
}
use real_time_monitor_agent.Store.{
  Store, User, success, einval, ok, maximal_screen_num, invalid_screen_index,
}
use real_time_monitor_agent.Store.Keeps.{Keeps, Runs-bind, Runs-equal, Returned-ok}
use real_time_monitor_agent.Users.{screen_disconnect_user}
use real_time_monitor_agent.Users.Consistent.{
  detached, screen_disconnect_user-detached, screen_disconnect_user-idle,
}
use real_time_monitor_agent.Wall.{clean_screens_from, clean_screens}
use real_time_monitor_agent.Wall.Invariant.{Sound, detached-Sound}
use real_time_monitor_agent.Wall.Cleaning.{clean_screens-clears}

-- Rooms and proxies are as before; each user is still in its room, and on its screen or on none.
pub record Stays (st₀ st : Store) : Type 0 where
  pub sound : Sound st
  pub rooms : st.rooms ≡ st₀.rooms
  pub proxies : st.proxies ≡ st₀.proxies
  pub user :
      (p : ℕ) (u : User)
      → st₀.users p ≡ some u
      → (v : User) × (st.users p ≡ some v)
        × (v.title_room ≡ u.title_room)
        × ((v.screen ≡ u.screen) ⊎ (v.screen ≡ none))

disconnect-Stays : (st₀ : Store) (s : ℕ) → Keeps (Stays st₀) (screen_disconnect_user s)
disconnect-Stays st₀ s = record {
  run = λ st v. elim (Option-cases (st.screens s).user) [
    | inl e ↦
        Runs-equal _ (screen_disconnect_user s) st einval st (screen_disconnect_user-idle s st e) v
    | inr (p, e) ↦
        let (u, h, on) = v.sound.linked.shows s p e in
        Runs-equal _ (screen_disconnect_user s) st success (detached s p u st)
          (screen_disconnect_user-detached s p u st e h)
          (record {
            sound = detached-Sound s p u st v.sound e h;
            rooms = v.rooms;
            proxies = v.proxies;
            user = λ q w hq.
                let (x, at, room, place) = v.user q w hq in
                elim (Bool-cases (p == q)) [
                  | inl same ↦ (
                    record x { screen = none; screen_idx = invalid_screen_index },
                    ground (arith, same, at, h),
                    room,
                    inr refl,
                  )
                  | inr other ↦ (x, ground (arith, other, at), room, place)
                ];
          })
  ];
}

clean_screens_from-Stays :
    (st₀ : Store) (left idx : ℕ) → Keeps (Stays st₀) (clean_screens_from left idx)
unfolding clean_screens_from
clean_screens_from-Stays st₀ zero idx = record { run = λ st v. v }
clean_screens_from-Stays st₀ (suc left) idx = record {
  run = λ st v.
      (Runs-bind (disconnect-Stays st₀ idx) λ x. clean_screens_from-Stays st₀ left (idx + 1)).run st
        v;
}

-- CleanScreens returns, empties the fifteen screens and leaves the rest.
pub clean_screens-Stays :
    (st : Store)
    → Sound st
    → (st' : Store) × (clean_screens st ≡ ok tt st')
      × Stays st st'
      × ((s : ℕ) → s < maximal_screen_num → (st'.screens s).user ≡ none)
      × ((p s : ℕ) (u : User) → st'.users p ≡ some u → s < maximal_screen_num → u.screen ≢ some s)
unfolding clean_screens
clean_screens-Stays st v =
    let (st', e, sound, empty, off) = clean_screens-clears st v in
    let before : Stays st st = record {
      sound = v;
      rooms = refl;
      proxies = refl;
      user = λ p u h. (u, h, refl, inl refl);
    } in
    (
      st',
      e,
      Returned-ok (λ x. Stays st) _ tt st'
          ((clean_screens_from-Stays st maximal_screen_num 0).run st before) e,
      (λ s small. ground (arith, empty s small)),
      off,
    )
