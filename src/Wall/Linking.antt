-- ===== src/Wall/Linking.antt =====
-- LinkScreenUser, step by step: the user leaves its screen, the screen is cleared, the two are linked
-- (Monitor/Monitor/ScreenMgr.cpp).
use real_time_monitor_agent.Base.{ℕ, ◌≡◌, refl, ap, ◌∙◌, List, Option, none, some, arith, ltb, ◌==◌}
use real_time_monitor_agent.Store.{
  Store, User, Screen, Sent, M, pure, ◌>>◌, PjStatus, success, update, invalid_screen_index,
  maximal_screen_num,
}
use real_time_monitor_agent.Store.Keeps.{
  Keeps, Runs, Runs-bind, Runs-weaken, Runs-equal, Keeps-pure, Runs-option, Runs-if, Runs-fault,
  Runs-user_at, Runs-screen_at, Keeps-room_at,
}
use real_time_monitor_agent.Users.{user_eq, screen_connect_user}
use real_time_monitor_agent.Users.Consistent.{
  attached, screen_connect_user-attached, attach-Consistent,
}
use real_time_monitor_agent.Proxies.{proxy_link_room_user}
use real_time_monitor_agent.Wall.{leave_old_screen, clear_new_screen, link_screen_user}
use real_time_monitor_agent.Wall.Invariant.{
  Sound, Off, Ready, Showing, link_room_user-Keeps, unlink_screen_user-Runs, detached-Sound,
}

Off-sends : (p : ℕ) (st : Store) (l : List Sent) → Off p st → Off p (record st { sent = l })
Off-sends p st l v = record {
  sound = record { linked = v.sound.linked; free = v.sound.free; housed = v.sound.housed };
  user = v.user;
  lives = v.lives;
  off = v.off;
}

Ready-sends :
    (s p : ℕ) (st : Store) (l : List Sent) → Ready s p st → Ready s p (record st { sent = l })
Ready-sends s p st l v = record { waiting = Off-sends p st l v.waiting; idle = v.idle }

-- A user that leaves its screen is on none.
leaving :
    (old p : ℕ) (u : User) (st : Store)
    → Sound st
    → st.users p ≡ some u
    → u.screen ≡ some old
    → Showing (Off p) old p st
leaving old p u st v h e = record {
  sound = v;
  shows = shows;
  then_holds = λ w hw. record {
    sound = detached-Sound old p w st v shows hw;
    user = record w { screen = none; screen_idx = invalid_screen_index };
    lives = ground arith;
    off = refl;
  };
}
  where
    shows : (st.screens old).user ≡ some p
    shows = (v.linked.shown p old u h e).0

-- The user of a screen leaves it, and a user that is on none stays so.
clearing :
    (s q p : ℕ) (st : Store) → Off p st → (st.screens s).user ≡ some q → Showing (Ready s p) s q st
clearing s q p st v e = record {
  sound = v.sound;
  shows = e;
  then_holds = λ w hw. record {
    waiting = record {
      sound = detached-Sound s q w st v.sound e hw;
      user = v.user;
      lives = stays w (v.sound.linked.shows s q e);
      off = v.off;
    };
    idle = ground arith;
  };
}
  where
    stays :
        (w : User) (shown : (u : User) × (st.users q ≡ some u) × (u.screen ≡ some s))
        → update st.users q (some (record w { screen = none; screen_idx = invalid_screen_index })) p
          ≡ some v.user
    stays w (u, h, on) = ground (arith, h, on, v.lives, v.off)

clearing_read :
    (s q p : ℕ) (screen : Screen) (st : Store)
    → screen.user ≡ some q
    → Off p st × (st.screens s ≡ screen)
    → Showing (Ready s p) s q st
clearing_read s q p screen st e (v, read) = clearing s q p st v (ap (λ x. x.user) read ∙ e)

-- Linking a user that is on no screen to a screen that shows none.
attached-Sound : (s p : ℕ) (st : Store) (v : Ready s p st) → Sound (attached s p v.waiting.user st)
attached-Sound s p st v = record {
  linked =
      attach-Consistent st.users st.screens v.waiting.sound.linked s p v.waiting.user
        v.waiting.lives v.idle v.waiting.off;
  free = λ q x. ground (arith, v.waiting.sound.free q, v.waiting.lives);
  housed = λ q w x.
      ground (
        arith,
        v.waiting.sound.housed q w,
        v.waiting.sound.housed p v.waiting.user,
        v.waiting.lives,
      );
}

connect-Runs : (s p : ℕ) → Runs (Ready s p) (screen_connect_user s (some p)) (λ x. Sound)
connect-Runs s p = record {
  run = λ st v.
      Runs-equal _ (screen_connect_user s (some p)) st success (attached s p v.waiting.user st)
        (screen_connect_user-attached s p v.waiting.user st v.waiting.lives)
        (attached-Sound s p st v);
}

module _ (net : List Sent → Sent → PjStatus) (p : ℕ) where
  leave_old_screen-Runs :
      (ns : ℕ) (rest : M (Unit {0}))
      → Runs (Off p) rest (λ x. Sound)
      → Keeps Sound (leave_old_screen net ns p rest)
  unfolding leave_old_screen
  leave_old_screen-Runs ns rest k = Runs-bind (Runs-user_at p) λ u.
      Runs-option u.screen
        (λ e.
          Runs-weaken (λ st v. record { sound = v.0; user = u; lives = v.1; off = e }) k
            (λ x st w. w))
        λ old e.
          Runs-if (ns == old) (λ same. Runs-weaken (λ st v. v.0) Keeps-pure (λ x st w. w))
            λ other.
              Runs-bind
                (Runs-weaken (λ st v. leaving old p u st v.0 v.1 e)
                  (unlink_screen_user-Runs net (Off p) (Off-sends p) old p) (λ x st w. w))
                λ x. k

  clear_new_screen-Runs :
      (ns : ℕ) (rest : M (Unit {0}))
      → Runs (Ready ns p) rest (λ x. Sound)
      → Runs (Off p) (clear_new_screen net ns p rest) (λ x. Sound)
  unfolding clear_new_screen
  clear_new_screen-Runs ns rest k = Runs-bind (Runs-screen_at ns) λ screen.
      Runs-option screen.user
        (λ e. Runs-weaken (λ st v. record { waiting = v.0; idle = cc (v.1, e) }) k (λ x st w. w))
        λ q e. Runs-bind (Runs-user_at p) λ u. Runs-bind (Runs-user_at q) λ old.
          Runs-if (user_eq u old)
            (λ same. Runs-weaken (λ st v. v.0.0.0.sound) Keeps-pure (λ x st w. w))
            λ other.
              Runs-bind
                (Runs-weaken (λ st v. clearing_read ns q p screen st e v.0.0)
                  (unlink_screen_user-Runs net (Ready ns p) (Ready-sends ns p) ns q) (λ x st w. w))
                λ x. k

  link_and_connect-Runs :
      (ns a : ℕ)
      → Runs
          (Ready ns p)
          (do proxy_link_room_user net a (some p); screen_connect_user ns (some p); pure tt)
          (λ x. Sound)
  link_and_connect-Runs ns a =
      Runs-bind (link_room_user-Keeps net (Ready ns p) (Ready-sends ns p) a (some p))
        λ x. Runs-bind (connect-Runs ns p) λ y. Keeps-pure

-- LinkScreenUser keeps users and screens linked both ways, whatever screen the user was on and
-- whatever user the screen showed.
pub link_screen_user-Keeps :
    (net : List Sent → Sent → PjStatus) (ns : ℕ) (user : Option ℕ)
    → Keeps Sound (link_screen_user net ns user)
unfolding link_screen_user
link_screen_user-Keeps net ns none = Keeps-pure
link_screen_user-Keeps net ns (some p) =
    Runs-if (ns == invalid_screen_index) (λ bad. Keeps-pure)
      λ valid. Runs-bind (Runs-weaken (λ st v. v) (Runs-user_at p) (λ u st w. w.0)) λ u.
        Runs-option u.title_room (λ e. Keeps-pure)
          λ r e. Runs-bind (Runs-bind (Keeps-room_at r) λ room. Keeps-pure) λ proxy.
            Runs-option proxy (λ e'. Keeps-pure)
              λ a e'.
                Runs-if (ltb ns maximal_screen_num)
                  (λ inside.
                    leave_old_screen-Runs net p ns _
                      (clear_new_screen-Runs net p ns _ (link_and_connect-Runs net p ns a)))
                  (λ outside. Runs-fault)
