-- ===== src/Wall/Taking.antt =====
-- LinkScreenUser from end to end: the screen shows the user (Monitor/Monitor/ScreenMgr.cpp).
use native.Mathlib.Decide.{ℕ_discrete}
use real_time_monitor_agent.Base.{
  ℕ, ◌≡◌, ◌≢◌, ◌<◌, refl, ◌∙◌, List, ◌∷◌, [], ◌++◌, none, some, false, arith, inl, inr,
  Option-cases,
}
use real_time_monitor_agent.Store.{
  Store, User, TitleRoom, AvsProxy, Sent, M, ok, pure, ◌>>=◌, PjStatus, invalid_screen_index,
  maximal_screen_num,
}
use real_time_monitor_agent.Store.Keeps.{Returned-ok}
use real_time_monitor_agent.Users.{user_eq, screen_connect_user}
use real_time_monitor_agent.Users.Consistent.{attached, detached, screen_connect_user-attached}
use real_time_monitor_agent.Proxies.{proxy_link_room_user}
use real_time_monitor_agent.Wall.{leave_old_screen, clear_new_screen, link_screen_user}
use real_time_monitor_agent.Wall.Invariant.{Sound, detached-Sound}
use real_time_monitor_agent.Wall.Linking.{link_screen_user-Keeps}
use real_time_monitor_agent.Wall.Shows.{
  Rooted, link_user_packet, link_room_user-sends, unlink_screen_user-returns, leave_goes_on,
  leave_moves, clear_goes_on, clear_moves, enter,
}

-- A method that returns and leaves the user at `p` on the screen.
abbrev Shown : ℕ → ℕ → M (Unit {0}) → Store → Type 0
Shown ns p m st = (st' : Store) × (m st ≡ ok tt st') × ((st'.screens ns).user ≡ some p)

Rooted-detached :
    (s q : ℕ) (w : User) (st : Store) (l : List Sent)
    → st.users q ≡ some w
    → Rooted st
    → Rooted (record (detached s q w st) { sent = l })
Rooted-detached s q w st l h v = record {
  room_of = λ p r u hu hr. ground (arith, v.room_of p r u, v.room_of q r w);
  proxy_of = v.proxy_of;
}

Sound-sends : (st : Store) (l : List Sent) → Sound st → Sound (record st { sent = l })
Sound-sends st l v = record { linked = v.linked; free = v.free; housed = v.housed }

module _ (ns p : ℕ) where
  -- After a user has left another screen, the screen `ns` shows whom it showed.
  left_alone :
      (u : User) (old : ℕ) (st : Store) (l : List Sent)
      → st.users p ≡ some u
      → (st.screens old).user ≡ some p
      → ns ≢ old
      → ((q : ℕ) (w : User)
          → (st.screens ns).user ≡ some q
          → st.users q ≡ some w
          → user_eq u w ≡ false)
      → (q : ℕ) (w : User) → ((detached old p u st).screens ns).user ≡ some q
      → (detached old p u st).users q ≡ some w
      → user_eq (record u { screen = none; screen_idx = invalid_screen_index }) w ≡ false
  unfolding user_eq
  left_alone u old st l hu shown other ne q w e h =
      let e' : (st.screens ns).user ≡ some q = ground (arith, e, other) in
      elim (ℕ_discrete q p) [
        | yes same ↦ ground (arith, h, same, e', ne p u, hu)
        | no away ↦ ne q w e' (ground (arith, h, away))
      ]

module _ (net : List Sent → Sent → PjStatus) (ns p r a : ℕ) (room : TitleRoom) where
  -- The last two steps.
  abbrev connects : M (Unit {0})
  connects =
      proxy_link_room_user net a (some p) >>= λ x. screen_connect_user ns (some p) >>= λ y. pure tt

  connects-Shown :
      (u : User) (proxy : AvsProxy) (st : Store)
      → st.proxies a ≡ some proxy
      → st.users p ≡ some u
      → u.title_room ≡ some r
      → st.rooms r ≡ some room
      → Shown ns p connects st
  connects-Shown u proxy st h hu hr hroom =
      let st₁ : Store = record st { sent = st.sent ++ (link_user_packet a proxy st room u ∷ []) } in
      (
        attached ns p u st₁,
        ground (
          arith,
          link_room_user-sends net a p r u room proxy st h hu hr hroom,
          screen_connect_user-attached ns p u st₁ hu,
        ),
        ground arith,
      )

  clears-Shown :
      (u : User) (proxy : AvsProxy) (st : Store)
      → Sound st
      → Rooted st
      → st.proxies a ≡ some proxy
      → st.users p ≡ some u
      → u.title_room ≡ some r
      → u.screen ≡ none
      → st.rooms r ≡ some room
      → ((q : ℕ) (w : User)
          → (st.screens ns).user ≡ some q
          → st.users q ≡ some w
          → user_eq u w ≡ false)
      → Shown ns p (clear_new_screen net ns p connects) st
  clears-Shown u proxy st v v' h hu hr off hroom ne = elim (Option-cases (st.screens ns).user) [
    | inl e ↦
        let (st', e', shows) = connects-Shown u proxy st h hu hr hroom in
        (st', clear_goes_on net ns p connects st e ∙ e', shows)
    | inr (q, e) ↦
        let (w, hq, on) = v.linked.shows ns q e in
        let (l, gone) = unlink_screen_user-returns net ns q w st v v' e hq in
        let (st', e', shows) =
          connects-Shown u proxy (record (detached ns q w st) { sent = l }) h
            (ground (arith, hu, hq, on, off)) hr hroom in
        (st', clear_moves net ns p q u w connects st _ e hu hq (ne q w e hq) gone ∙ e', shows)
  ]

  leaves-Shown :
      (u : User) (proxy : AvsProxy) (st : Store)
      → Sound st
      → Rooted st
      → st.proxies a ≡ some proxy
      → st.users p ≡ some u
      → u.title_room ≡ some r
      → u.screen ≢ some ns
      → st.rooms r ≡ some room
      → ((q : ℕ) (w : User)
          → (st.screens ns).user ≡ some q
          → st.users q ≡ some w
          → user_eq u w ≡ false)
      → Shown ns p (leave_old_screen net ns p (clear_new_screen net ns p connects)) st
  leaves-Shown u proxy st v v' h hu hr not_there hroom ne = elim (Option-cases u.screen) [
    | inl off ↦
        let (st', e', shows) = clears-Shown u proxy st v v' h hu hr off hroom ne in
        (st', leave_goes_on net ns p u (clear_new_screen net ns p connects) st hu off ∙ e', shows)
    | inr (old, on) ↦
        let shown = (v.linked.shown p old u hu on).0 in
        let (l, gone) = unlink_screen_user-returns net old p u st v v' shown hu in
        let st₁ : Store = record (detached old p u st) { sent = l } in
        let other : ns ≢ old = λ same. not_there (cc (on, same)) in
        let (st', e', shows) =
          clears-Shown (record u { screen = none; screen_idx = invalid_screen_index }) proxy st₁
            (Sound-sends _ l (detached-Sound old p u st v shown hu))
            (Rooted-detached old p u st l hu v') h (ground arith) hr refl hroom
            (left_alone ns p u old st l hu shown other ne) in
        (
          st',
          leave_moves net ns p old u (clear_new_screen net ns p connects) st st₁ hu on other gone
              ∙ e',
          shows,
        )
  ]

  -- In a sound store where every user's room and every room's proxy exist, LinkScreenUser returns,
  -- whatever the network does, for one of the fifteen screens and a user whose room has a proxy, that
  -- is not yet on that screen and that differs from the user shown there: then the screen shows the
  -- user, and users and screens are linked both ways. The user may be on another screen, and the
  -- screen may show another user.
  pub link_screen_user-shows :
      (u : User) (st : Store)
      → Sound st
      → Rooted st
      → ns < maximal_screen_num
      → st.users p ≡ some u
      → u.title_room ≡ some r
      → st.rooms r ≡ some room
      → room.proxy ≡ some a
      → u.screen ≢ some ns
      → ((q : ℕ) (w : User)
          → (st.screens ns).user ≡ some q
          → st.users q ≡ some w
          → user_eq u w ≡ false)
      → (st' : Store) × (link_screen_user net ns (some p) st ≡ ok tt st')
        × ((st'.screens ns).user ≡ some p)
        × Sound st'
  link_screen_user-shows u st v v' small hu hr hroom ha not_there ne =
      let (proxy, h) = v'.proxy_of r a room hroom ha in
      let (st', e, shows) = leaves-Shown u proxy st v v' h hu hr not_there hroom ne in
      let returns = enter net ns p r a u room st small hu hr hroom ha ∙ e in
      (
        st',
        returns,
        shows,
        Returned-ok (λ x. Sound) _ tt st' ((link_screen_user-Keeps net ns (some p)).run st v)
            returns,
      )
