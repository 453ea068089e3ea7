-- ===== src/Users.antt =====
-- The methods of `User` (Monitor/Monitor/TitleRoom.cpp) and those of `Screen` that connect the two
-- (Monitor/Monitor/Screen.cpp).
pub mod Consistent
use real_time_monitor_agent.Base.{
  ℕ, ◌%◌, ◌≡◌, Option, none, some, Bool, true, false, ltb, ◌==◌, if◌then◌else◌, ◌&&◌,
}
use real_time_monitor_agent.Store.{
  Store, User, Screen, M, Outcome, ok, fault, pure, ◌>>=◌, ◌>>◌, update, PjStatus, success, einval,
  enotfound, user_at, put_user, screen_at, put_screen, invalid_screen_index,
}

-- `insert` of an index map, which leaves an entry that is there; the index is cut to 8 bits.
abbrev pub index_insert : ℕ → ℕ → (ℕ → Option ℕ) → ℕ → Option ℕ
index_insert ssrc idx f q =
    if ssrc == q then elim (f q) [ some old ↦ some old | none ↦ some (idx % 256) ] else f q

abbrev pub index_erase : ℕ → (ℕ → Option ℕ) → ℕ → Option ℕ
index_erase ssrc f q = if ssrc == q then none else f q

-- The two blocks `if (audio_ssrc_ > 0) … if (video_ssrc_ > 0) …`.
abbrev pub index_user : User → ℕ → M (Unit {0})
index_user u idx st = ok tt (record st {
  audio_map =
      if ltb 0 u.audio_ssrc then index_insert u.audio_ssrc idx st.audio_map else st.audio_map;
  video_map =
      if ltb 0 u.video_ssrc then index_insert u.video_ssrc idx st.video_map else st.video_map;
})

unfoldable pub user_connect_screen : ℕ → ℕ → ℕ → M (Unit {0})
user_connect_screen p screen screen_idx = do
  u ← user_at p
  index_user u screen_idx
  put_user p (record u { screen = some screen; screen_idx = screen_idx })

unfoldable pub user_disconnect_screen : ℕ → M (Unit {0})
user_disconnect_screen p = do
  u ← user_at p
  (λ st. ok tt (record st {
    audio_map = index_erase u.audio_ssrc st.audio_map;
    video_map = index_erase u.video_ssrc st.video_map;
  }))
  put_user p (record u { screen = none; screen_idx = invalid_screen_index })

unfoldable pub mod_media : ℕ → ℕ → ℕ → M (Unit {0})
mod_media p audio_ssrc video_ssrc = do
  u ← user_at p
  let u' : User = record u { audio_ssrc = audio_ssrc; video_ssrc = video_ssrc }
  put_user p u'
  elim u.screen [ some s ↦ index_user u' u.screen_idx | none ↦ pure tt ]

-- `User::operator==`.
unfoldable pub user_eq : User → User → Bool
user_eq a b =
    a.user_id == b.user_id
    && (elim a.title_room [
      | some r ↦ elim b.title_room [ some q ↦ r == q | none ↦ false ]
      | none ↦ elim b.title_room [ some q ↦ false | none ↦ true ]
    ]
        && (a.audio_ssrc == b.audio_ssrc && a.video_ssrc == b.video_ssrc))

-- `Screen::IsIdle` and `Screen::GetUser`.
pub is_idle : Screen → Bool
is_idle screen = elim screen.user [ some p ↦ false | none ↦ true ]

pub screen_get_user : Screen → PjStatus × Option ℕ
screen_get_user screen = elim screen.user [ some p ↦ (success, some p) | none ↦ (enotfound, none) ]

unfoldable pub screen_connect_user : ℕ → Option ℕ → M PjStatus
screen_connect_user s none = pure einval
screen_connect_user s (some p) = do
  put_screen s (record { user = some p; media_active = true })
  user_connect_screen p s s
  pure success

-- The window is redrawn at the end.
unfoldable pub screen_disconnect_user : ℕ → M PjStatus
screen_disconnect_user s = do
  screen ← screen_at s
  elim screen.user [
    | none ↦ pure einval
    | some p ↦ do
      put_screen s (record screen { media_active = false })
      user_disconnect_screen p
      put_screen s (record { user = none; media_active = false })
      pure success
  ]
