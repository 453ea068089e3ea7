-- ===== src/Users/Consistent.antt =====
-- Users and screens point at one another: the invariant, and the two methods of `Screen` that
-- make and break the link.
use real_time_monitor_agent.Base.{
  ℕ, ◌≡◌, ap, ◌∙◌, Option, none, some, true, false, if◌then◌else◌, arith, ltb,
}
use mathlib.Core.Path.{fun_ext}
use native.Mathlib.Decide.{ℕ_discrete}
use real_time_monitor_agent.Store.{
  Store, User, Screen, Outcome, ok, update, PjStatus, success, einval, invalid_screen_index,
}
use real_time_monitor_agent.Users.{
  index_insert, index_erase, user_connect_screen, user_disconnect_screen, screen_connect_user,
  screen_disconnect_user,
}

-- A screen shows a user exactly if that user is on the screen, so no user is on two screens and
-- no pointer dangles; a screen takes media exactly if it shows a user.
pub record Consistent (users : ℕ → Option User) (screens : ℕ → Screen) : Type 0 where
  pub shows :
      (s p : ℕ) → (screens s).user ≡ some p → (u : User) × (users p ≡ some u) × (u.screen ≡ some s)
  pub shown :
      (p s : ℕ) (u : User)
      → users p ≡ some u
      → u.screen ≡ some s
      → ((screens s).user ≡ some p) × (u.screen_idx ≡ s)
  pub active :
      (s : ℕ) → (screens s).media_active ≡ elim (screens s).user [ some p ↦ true | none ↦ false ]

abbrev pub IsConsistent : Store → Type 0
IsConsistent st = Consistent st.users st.screens

-- The state behind DisconnectUser on a screen `s` that shows the user `u` at `p`.
abbrev pub detached : ℕ → ℕ → User → Store → Store
detached s p u st = record st {
  users = update st.users p (some (record u { screen = none; screen_idx = invalid_screen_index }));
  screens = update st.screens s (record { user = none; media_active = false });
  audio_map = index_erase u.audio_ssrc st.audio_map;
  video_map = index_erase u.video_ssrc st.video_map;
}

update-update :
    {V : Type 0} (f : ℕ → V) (p : ℕ) (v w : V) (q : ℕ)
    → update (update f p v) p w q ≡ update f p w q
update-update f p v w q = ground arith

pub screen_disconnect_user-detached :
    (s p : ℕ) (u : User) (st : Store)
    → (st.screens s).user ≡ some p
    → st.users p ≡ some u
    → screen_disconnect_user s st ≡ ok success (detached s p u st)
unfolding screen_disconnect_user user_disconnect_screen
screen_disconnect_user-detached s p u st e h =
    two_writes ∙ ap done (fun_ext (update-update st.screens s _ _))
  where
    done : (ℕ → Screen) → Outcome PjStatus
    done f = ok success (record (detached s p u st) { screens = f })

    two_writes :
        screen_disconnect_user s st
        ≡ done (
            update
              (update st.screens s (record { user = (st.screens s).user; media_active = false }))
              s
              (record { user = none; media_active = false }))
    two_writes = ground arith

pub screen_disconnect_user-idle :
    (s : ℕ) (st : Store) → (st.screens s).user ≡ none → screen_disconnect_user s st ≡ ok einval st
unfolding screen_disconnect_user
screen_disconnect_user-idle s st e = ground arith

-- The state behind ConnectUser.
abbrev pub attached : ℕ → ℕ → User → Store → Store
attached s p u st = record st {
  users = update st.users p (some (record u { screen = some s; screen_idx = s }));
  screens = update st.screens s (record { user = some p; media_active = true });
  audio_map = if ltb 0 u.audio_ssrc then index_insert u.audio_ssrc s st.audio_map else st.audio_map;
  video_map = if ltb 0 u.video_ssrc then index_insert u.video_ssrc s st.video_map else st.video_map;
}

pub screen_connect_user-attached :
    (s p : ℕ) (u : User) (st : Store)
    → st.users p ≡ some u
    → screen_connect_user s (some p) st ≡ ok success (attached s p u st)
unfolding screen_connect_user user_connect_screen
screen_connect_user-attached s p u st h = ground arith

module _ (users : ℕ → Option User) (screens : ℕ → Screen) (v : Consistent users screens) (s p : ℕ)
    (u : User) (h : users p ≡ some u) where
  on_screen : (e : (screens s).user ≡ some p) → u.screen ≡ some s
  on_screen e = let (w, hw, ws) = v.shows s p e in ground (arith, hw, ws)

  pub detach-Consistent :
      (screens s).user ≡ some p
      → Consistent
          (update users p (some (record u { screen = none; screen_idx = invalid_screen_index })))
          (update screens s (record { user = none; media_active = false }))
  detach-Consistent e = record {
    shows = λ s' q x.
        let x' : (screens s').user ≡ some q = ground arith in
        let (w, hw, ws) = v.shows s' q x' in (w, ground (arith, hw, ws, on_screen e), ws);
    shown = λ q s' w x y. ground (arith, v.shown q s' w);
    active = λ s'. ground (arith, v.active s');
  }

  pub attach-Consistent :
      (screens s).user ≡ none
      → u.screen ≡ none
      → Consistent
          (update users p (some (record u { screen = some s; screen_idx = s })))
          (update screens s (record { user = some p; media_active = true }))
  attach-Consistent idle off = record {
    shows = λ s' q x. elim (ℕ_discrete s s') [
      | yes e ↦ (record u { screen = some s; screen_idx = s }, ground arith, ground arith)
      | no ne ↦
          let x' : (screens s').user ≡ some q = ground arith in
          let (w, hw, ws) = v.shows s' q x' in (w, ground (arith, hw, ws), ws)
    ];
    shown = λ q s' w x y. ground (arith, v.shown q s' w);
    active = λ s'. ground (arith, v.active s');
  }

  -- A change of other fields of a user.
  pub edit-Consistent :
      (w : User)
      → w.screen ≡ u.screen
      → w.screen_idx ≡ u.screen_idx
      → Consistent (update users p (some w)) screens
  edit-Consistent w same place = record {
    shows = λ s' q x.
        let (z, hz, zs) = v.shows s' q x in
        elim (ℕ_discrete p q) [
          | yes e ↦ (w, ground arith, ground (arith, hz, zs))
          | no ne ↦ (z, ground (arith, hz), zs)
        ];
    shown = λ q s' z x y. ground (arith, v.shown q s' u, v.shown q s' z);
    active = v.active;
  }

  -- A user that is on no screen is deleted.
  pub delete-Consistent : u.screen ≡ none → Consistent (update users p none) screens
  delete-Consistent off = record {
    shows = λ s' q x. let (z, hz, zs) = v.shows s' q x in (z, ground (arith, hz, zs), zs);
    shown = λ q s' z x y. ground (arith, v.shown q s' z);
    active = v.active;
  }

-- A new user, on no screen.
pub new-Consistent :
    (users : ℕ → Option User) (screens : ℕ → Screen) (p : ℕ) (u : User)
    → Consistent users screens
    → users p ≡ none
    → u.screen ≡ none
    → Consistent (update users p (some u)) screens
new-Consistent users screens p u v free off = record {
  shows = λ s' q x. let (z, hz, zs) = v.shows s' q x in (z, ground (arith, hz, zs), zs);
  shown = λ q s' z x y. ground (arith, v.shown q s' z);
  active = v.active;
}
