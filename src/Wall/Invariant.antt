-- ===== src/Wall/Invariant.antt =====
-- The methods of Users, Rooms and Wall keep users and screens linked both ways
-- (Monitor/Monitor/ScreenMgr.cpp, TitleRoom.cpp, Screen.cpp).
use real_time_monitor_agent.Base.{
  ℕ, ◌≡◌, ◌≤◌, ◌≢◌, List, Option, none, some, arith, inl, inr, Option-cases,
}
use real_time_monitor_agent.Store.{Store, User, Sent, PjStatus, success, einval}
use real_time_monitor_agent.Store.Keeps.{
  Keeps, Runs, Runs-bind, Runs-weaken, Runs-equal, Keeps-pure, Runs-option, Runs-fault,
  Runs-user_at, Keeps-room_at, Keeps-proxy_at,
}
use real_time_monitor_agent.Users.{screen_disconnect_user}
use real_time_monitor_agent.Users.Consistent.{
  IsConsistent, detached, screen_disconnect_user-detached, screen_disconnect_user-idle,
  detach-Consistent,
}
use real_time_monitor_agent.Proxies.{send, proxy_link_room_user, proxy_unlink_room_user}
use real_time_monitor_agent.Wall.{unlink_screen_user}

-- Users and screens are linked both ways, the addresses not yet handed out hold no user, and each
-- user belongs to a room.
pub record Sound (st : Store) : Type 0 where
  pub linked : IsConsistent st
  pub free : (p : ℕ) → st.fresh ≤ p → st.users p ≡ none
  pub housed : (p : ℕ) (u : User) → st.users p ≡ some u → u.title_room ≢ none

-- The user at `p` exists and is on no screen.
pub record Off (p : ℕ) (st : Store) : Type 0 where
  pub sound : Sound st
  pub user : User
  pub lives : st.users p ≡ some user
  pub off : user.screen ≡ none

-- Moreover the screen `s` shows no user.
pub record Ready (s p : ℕ) (st : Store) : Type 0 where
  pub waiting : Off p st
  pub idle : (st.screens s).user ≡ none

module _ (net : List Sent → Sent → PjStatus) (P : Store → Type 0)
    (sends : (st : Store) (l : List Sent) → P st → P (record st { sent = l })) where
  pub link_room_user-Keeps : (a : ℕ) (q : Option ℕ) → Keeps P (proxy_link_room_user net a q)
  unfolding proxy_link_room_user send
  link_room_user-Keeps a none = Keeps-pure
  link_room_user-Keeps a (some p) = Runs-bind (Keeps-proxy_at a) λ proxy.
      Runs-bind (Runs-user_at p) λ u.
        Runs-option u.title_room (λ e. Runs-fault)
          λ r e.
            Runs-bind (Runs-weaken (λ st v. v.0) (Keeps-room_at r) (λ x st v. v))
              λ room. record { run = λ st v. sends st _ v }

  pub unlink_room_user-Keeps : (a : ℕ) (q : Option ℕ) → Keeps P (proxy_unlink_room_user net a q)
  unfolding proxy_unlink_room_user send
  unlink_room_user-Keeps a none = Keeps-pure
  unlink_room_user-Keeps a (some p) = Runs-bind (Keeps-proxy_at a) λ proxy.
      Runs-bind (Runs-user_at p) λ u.
        Runs-option u.title_room (λ e. Runs-fault)
          λ r e.
            Runs-bind (Runs-weaken (λ st v. v.0) (Keeps-room_at r) (λ x st v. v))
              λ room. record { run = λ st v. sends st _ v }

-- A screen that is disconnected: what it leaves behind.
pub detached-Sound :
    (s p : ℕ) (u : User) (st : Store)
    → Sound st
    → (st.screens s).user ≡ some p
    → st.users p ≡ some u
    → Sound (detached s p u st)
detached-Sound s p u st v e h = record {
  linked = detach-Consistent st.users st.screens v.linked s p u h e;
  free = λ q x. ground (arith, v.free q);
  housed = λ q w x. ground (arith, v.housed q w, v.housed p u);
}

pub screen_disconnect_user-Keeps : (s : ℕ) → Keeps Sound (screen_disconnect_user s)
screen_disconnect_user-Keeps s = record {
  run = λ st v. elim (Option-cases (st.screens s).user) [
    | inl e ↦
        Runs-equal _ (screen_disconnect_user s) st einval st (screen_disconnect_user-idle s st e) v
    | inr (p, e) ↦
        let (u, h, on) = v.linked.shows s p e in
        Runs-equal _ (screen_disconnect_user s) st success (detached s p u st)
          (screen_disconnect_user-detached s p u st e h) (detached-Sound s p u st v e h)
  ];
}

-- The screen `s` shows the user at `q`, and `R` holds once it is disconnected.
pub record Showing (R : Store → Type 0) (s q : ℕ) (st : Store) : Type 0 where
  pub sound : Sound st
  pub shows : (st.screens s).user ≡ some q
  pub then_holds : (u : User) → st.users q ≡ some u → R (detached s q u st)

-- UnlinkScreenUser on the screen that shows the user: whatever `R` the disconnected state has, and
-- what is sent does not change.
module _ (net : List Sent → Sent → PjStatus) (R : Store → Type 0)
    (sends : (st : Store) (l : List Sent) → R st → R (record st { sent = l })) where
  pub unlink_screen_user-Runs :
      (s q : ℕ) → Runs (Showing R s q) (unlink_screen_user net (some s) (some q)) (λ x. R)
  unfolding unlink_screen_user
  unlink_screen_user-Runs s q = Runs-bind (Runs-user_at q) λ u.
      Runs-option u.title_room
        (λ none_room. record { run = λ st v. absurd (v.0.sound.housed q u v.1 none_room) })
        λ r e. Runs-bind disconnect λ x.
          Runs-bind (Runs-bind (Keeps-room_at r) λ room. Keeps-pure) λ proxy.
            Runs-option proxy (λ e. Keeps-pure)
              λ a e. Runs-bind (unlink_room_user-Keeps net R sends a (some q)) λ y. Keeps-pure
    where
      disconnect :
          {u : User}
          → Runs
              (λ st. Showing R s q st × (st.users q ≡ some u))
              (screen_disconnect_user s)
              (λ x. R)
      disconnect {u} = record {
        run = λ st v.
            Runs-equal _ (screen_disconnect_user s) st success (detached s q u st)
              (screen_disconnect_user-detached s q u st v.0.shows v.1) (v.0.then_holds u v.1);
      }
