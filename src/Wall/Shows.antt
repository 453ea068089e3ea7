-- ===== src/Wall/Shows.antt =====
-- LinkScreenUser returns and shows the user (Monitor/Monitor/ScreenMgr.cpp).
use real_time_monitor_agent.Base.{
  ℕ, ◌≡◌, ◌≢◌, ◌<◌, List, ◌∷◌, [], ◌++◌, none, some, false, arith, inl, inr, Option-cases,
}
use real_time_monitor_agent.Store.{
  Store, User, TitleRoom, AvsProxy, Sent, tcp, M, ok, pure, ◌>>=◌, PjStatus, invalid_screen_index,
  maximal_screen_num,
}
use real_time_monitor_agent.Users.{user_eq, screen_connect_user}
use real_time_monitor_agent.Users.Consistent.{detached, screen_disconnect_user-detached}
use real_time_monitor_agent.Wire.Requests.{link_room_user, unlink_room_user}
use real_time_monitor_agent.Proxies.{
  proxy_link_room_user, proxy_unlink_room_user, send, type_link_room_user, type_unlink_room_user,
  media_mask_video,
}
use real_time_monitor_agent.Wall.{
  unlink_screen_user, leave_old_screen, clear_new_screen, link_screen_user,
}
use real_time_monitor_agent.Wall.Invariant.{Sound}

-- Every user's room exists, and every room's proxy.
pub record Rooted (st : Store) : Type 0 where
  pub room_of :
      (p r : ℕ) (u : User)
      → st.users p ≡ some u
      → u.title_room ≡ some r
      → (room : TitleRoom) × (st.rooms r ≡ some room)
  pub proxy_of :
      (r a : ℕ) (room : TitleRoom)
      → st.rooms r ≡ some room
      → room.proxy ≡ some a
      → (proxy : AvsProxy) × (st.proxies a ≡ some proxy)

abbrev pub link_user_packet : ℕ → AvsProxy → Store → TitleRoom → User → Sent
link_user_packet a proxy st room u = tcp a (
    link_room_user (record {
      length = 0;
      client_request_type = type_link_room_user;
      proxy_id = proxy.id;
      client_id = st.config.client_id;
      room_id = room.id;
      user_id = u.user_id;
      link_media_mask = media_mask_video;
    }))

abbrev pub unlink_user_packet : ℕ → AvsProxy → Store → TitleRoom → User → Sent
unlink_user_packet a proxy st room u = tcp a (
    unlink_room_user (record {
      length = 0;
      client_request_type = type_unlink_room_user;
      proxy_id = proxy.id;
      client_id = st.config.client_id;
      room_id = room.id;
      user_id = u.user_id;
      unlink_media_mask = media_mask_video;
    }))

module _ (net : List Sent → Sent → PjStatus) where
  pub link_room_user-sends :
      (a p r : ℕ) (u : User) (room : TitleRoom) (proxy : AvsProxy) (st : Store)
      → st.proxies a ≡ some proxy
      → st.users p ≡ some u
      → u.title_room ≡ some r
      → st.rooms r ≡ some room
      → proxy_link_room_user net a (some p) st
        ≡ ok
            (net st.sent (link_user_packet a proxy st room u))
            (record st { sent = st.sent ++ (link_user_packet a proxy st room u ∷ []) })
  unfolding proxy_link_room_user send
  link_room_user-sends a p r u room proxy st h hu hr hroom = ground arith

  unlink_room_user-sends :
      (a p r : ℕ) (u : User) (room : TitleRoom) (proxy : AvsProxy) (st : Store)
      → st.proxies a ≡ some proxy
      → st.users p ≡ some u
      → u.title_room ≡ some r
      → st.rooms r ≡ some room
      → proxy_unlink_room_user net a (some p) st
        ≡ ok
            (net st.sent (unlink_user_packet a proxy st room u))
            (record st { sent = st.sent ++ (unlink_user_packet a proxy st room u ∷ []) })
  unfolding proxy_unlink_room_user send
  unlink_room_user-sends a p r u room proxy st h hu hr hroom = ground arith

  -- UnlinkScreenUser on the screen that shows the user returns: the screen is disconnected, and at most
  -- packets are sent.
  pub unlink_screen_user-returns :
      (s q : ℕ) (w : User) (st : Store)
      → Sound st
      → Rooted st
      → (st.screens s).user ≡ some q
      → st.users q ≡ some w
      → (l : List Sent) × (unlink_screen_user net (some s) (some q) st
          ≡ ok tt (record (detached s q w st) { sent = l }))
  unfolding unlink_screen_user
  unlink_screen_user-returns s q w st v v' e h = elim (Option-cases w.title_room) [
    | inl none_room ↦ absurd (v.housed q w h none_room)
    | inr (r, hr) ↦
        let (room, hroom) = v'.room_of q r w h hr in
        let gone = screen_disconnect_user-detached s q w st e h in
        elim (Option-cases room.proxy) [
          | inl no_proxy ↦ (st.sent, ground (arith, gone))
          | inr (a, ha) ↦
              let (proxy, hproxy) = v'.proxy_of r a room hroom ha in
              let off : User = record w { screen = none; screen_idx = invalid_screen_index } in
              (
                st.sent ++ (unlink_user_packet a proxy (detached s q w st) room off ∷ []),
                ground (
                  arith,
                  gone,
                  unlink_room_user-sends a q r off room proxy (detached s q w st) hproxy
                      (ground arith) hr hroom,
                ),
              )
        ]
  ]

  pub leave_goes_on :
      (ns p : ℕ) (u : User) (rest : M (Unit {0})) (st : Store)
      → st.users p ≡ some u
      → u.screen ≡ none
      → leave_old_screen net ns p rest st ≡ rest st
  unfolding leave_old_screen
  leave_goes_on ns p u rest st h off = ground arith

  pub leave_moves :
      (ns p old : ℕ) (u : User) (rest : M (Unit {0})) (st st₁ : Store)
      → st.users p ≡ some u
      → u.screen ≡ some old
      → ns ≢ old
      → unlink_screen_user net (some old) (some p) st ≡ ok tt st₁
      → leave_old_screen net ns p rest st ≡ rest st₁
  unfolding leave_old_screen
  leave_moves ns p old u rest st st₁ h on ne e = ground (arith, e)

  pub clear_goes_on :
      (ns p : ℕ) (rest : M (Unit {0})) (st : Store)
      → (st.screens ns).user ≡ none
      → clear_new_screen net ns p rest st ≡ rest st
  unfolding clear_new_screen
  clear_goes_on ns p rest st e = ground arith

  pub clear_moves :
      (ns p q : ℕ) (u w : User) (rest : M (Unit {0})) (st st₁ : Store)
      → (st.screens ns).user ≡ some q
      → st.users p ≡ some u
      → st.users q ≡ some w
      → user_eq u w ≡ false
      → unlink_screen_user net (some ns) (some q) st ≡ ok tt st₁
      → clear_new_screen net ns p rest st ≡ rest st₁
  unfolding clear_new_screen
  clear_moves ns p q u w rest st st₁ shows h hq ne e = ground (arith, e)

  pub enter :
      (ns p r a : ℕ) (u : User) (room : TitleRoom) (st : Store)
      → ns < maximal_screen_num
      → st.users p ≡ some u
      → u.title_room ≡ some r
      → st.rooms r ≡ some room
      → room.proxy ≡ some a
      → link_screen_user net ns (some p) st
        ≡ leave_old_screen net ns p
            (clear_new_screen net ns p (
              proxy_link_room_user net a (some p) >>= λ x.
              screen_connect_user ns (some p) >>= λ y. pure tt))
            st
  unfolding link_screen_user
  enter ns p r a u room st small h hr hroom ha = ground arith
