-- ===== src/Wall.antt =====
-- The wall of screens: which user is shown on which screen (Monitor/Monitor/ScreenMgr.cpp).
pub mod Invariant
pub mod Linking
pub mod Cleaning
pub mod Emptied
pub mod Shows
pub mod Taking
pub mod Calls
pub mod Examples
use real_time_monitor_agent.Base.{
  ℕ, zero, suc, ◌+◌, ◌%◌, ◌^◌, List, [], ◌∷◌, ◌++◌, Option, none, some, Bool, true, false, ltb,
  ◌==◌, if◌then◌else◌,
}
use real_time_monitor_agent.Store.{
  Store, User, Screen, Sent, M, Outcome, ok, fault, stuck, pure, ◌>>=◌, ◌>>◌, PjStatus, success,
  einval, user_at, room_at, screen_at, invalid_screen_index, maximal_screen_num,
}
use real_time_monitor_agent.Users.{user_eq, screen_connect_user, screen_disconnect_user}
use real_time_monitor_agent.Proxies.{proxy_link_room_user, proxy_unlink_room_user}

module _ (net : List Sent → Sent → PjStatus) where
  -- `title_room_->proxy_` of a user whose room is not null.
  abbrev proxy_of : ℕ → M (Option ℕ)
  proxy_of r = do room ← room_at r; pure room.proxy

  unfoldable pub unlink_screen_user : Option ℕ → Option ℕ → M (Unit {0})
  unlink_screen_user none old_user = pure tt
  unlink_screen_user (some s) none = pure tt
  unlink_screen_user (some s) (some p) = do
    u ← user_at p
    elim u.title_room [
      | none ↦ pure tt
      | some r ↦ do
        screen_disconnect_user s
        proxy ← proxy_of r
        elim proxy [ none ↦ pure tt | some a ↦ do proxy_unlink_room_user net a (some p); pure tt ]
    ]

  -- The two `if` blocks: each goes on with the rest, or returns.
  unfoldable pub leave_old_screen : ℕ → ℕ → M (Unit {0}) → M (Unit {0})
  leave_old_screen new_screen p rest = do
    u ← user_at p
    elim u.screen [
      | none ↦ rest
      | some old ↦
          if new_screen == old then pure tt else (do unlink_screen_user (some old) (some p); rest)
    ]

  unfoldable pub clear_new_screen : ℕ → ℕ → M (Unit {0}) → M (Unit {0})
  unfolding user_eq
  clear_new_screen new_screen p rest = do
    screen ← screen_at new_screen
    elim screen.user [
      | none ↦ rest
      | some q ↦ do
        u ← user_at p
        old ← user_at q
        if user_eq u old then pure tt else (do unlink_screen_user (some new_screen) (some q); rest)
    ]

  unfoldable pub link_screen_user : ℕ → Option ℕ → M (Unit {0})
  link_screen_user new_screen_idx none = pure tt
  link_screen_user new_screen_idx (some p) =
      if new_screen_idx == invalid_screen_index then pure tt else (do
        u ← user_at p
        elim u.title_room [
          | none ↦ pure tt
          | some r ↦ do
            proxy ← proxy_of r
            elim proxy [
              | none ↦ pure tt
              | some a ↦
                  if ltb new_screen_idx maximal_screen_num
                  then leave_old_screen new_screen_idx p (
                      clear_new_screen new_screen_idx p do
                        proxy_link_room_user net a (some p)
                        screen_connect_user new_screen_idx (some p)
                        pure tt)
                  else (λ st. fault)
            ]
        ])

-- The loop of CleanScreens, from the screen `idx` on; `left` counts the screens that are left.
unfoldable pub clean_screens_from : ℕ → ℕ → M (Unit {0})
clean_screens_from zero idx st = ok tt st
clean_screens_from (suc left) idx st =
    (do screen_disconnect_user idx; clean_screens_from left (idx + 1)) st

unfoldable pub clean_screens : M (Unit {0})
unfolding clean_screens_from
clean_screens = clean_screens_from maximal_screen_num 0
