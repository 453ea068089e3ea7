-- ===== src/Wall/Cleaning.antt =====
-- CleanScreens: the loop over all screens (Monitor/Monitor/ScreenMgr.cpp).
use real_time_monitor_agent.Base.{
  ℕ, zero, suc, ◌≡◌, ◌≤◌, ◌≢◌, refl, ap, ◌∙◌, none, some, false, arith, inl, inr, Option-cases, ◌+◌,
  ◌<◌,
}
use real_time_monitor_agent.Store.{
  Store, User, ok, deadlock, fault, stuck, PjStatus, success, einval, maximal_screen_num,
}
use real_time_monitor_agent.Store.Keeps.{Keeps, Runs-equal}
use real_time_monitor_agent.Users.{screen_disconnect_user}
use real_time_monitor_agent.Users.Consistent.{
  detached, screen_disconnect_user-detached, screen_disconnect_user-idle,
}
use real_time_monitor_agent.Wall.{clean_screens_from, clean_screens}
use real_time_monitor_agent.Wall.Invariant.{Sound, detached-Sound}

-- What DisconnectUser leaves: the screen shows no user, and no other screen is touched.
record Disconnected (s : ℕ) (st st' : Store) : Type 0 where
  sound : Sound st'
  idle : (st'.screens s).user ≡ none
  kept : (q : ℕ) → q ≢ s → st'.screens q ≡ st.screens q

-- DisconnectUser returns, on a screen that shows a user and on one that shows none.
disconnect-returns :
    (s : ℕ) (st : Store)
    → Sound st
    → (r : PjStatus) × (st' : Store) × (screen_disconnect_user s st ≡ ok r st')
      × Disconnected s st st'
disconnect-returns s st v = elim (Option-cases (st.screens s).user) [
  | inl e ↦ (
    einval,
    st,
    screen_disconnect_user-idle s st e,
    record { sound = v; idle = e; kept = λ q ne. refl },
  )
  | inr (p, e) ↦
      let (u, h, on) = v.linked.shows s p e in
      (
        success,
        detached s p u st,
        screen_disconnect_user-detached s p u st e h,
        record {
          sound = detached-Sound s p u st v e h;
          idle = ground arith;
          kept = λ q ne. ground arith;
        },
      )
]

record Cleaned (left idx : ℕ) (st st' : Store) : Type 0 where
  sound : Sound st'
  cleaned : (s : ℕ) → idx ≤ s → s < idx + left → (st'.screens s).user ≡ none
  kept : (q : ℕ) → q < idx → st'.screens q ≡ st.screens q

clean_screens_from-Cleaned :
    (left idx : ℕ) (st : Store)
    → Sound st
    → (st' : Store) × (clean_screens_from left idx st ≡ ok tt st') × Cleaned left idx st st'
unfolding clean_screens_from
clean_screens_from-Cleaned zero idx st v = (
  st,
  refl,
  record { sound = v; cleaned = λ s low high. absurd (omega arith); kept = λ q x. refl },
)
clean_screens_from-Cleaned (suc left) idx st v =
    let (r, st₁, e, d) = disconnect-returns idx st v in
    let (st₂, e', c) = clean_screens_from-Cleaned left (idx + 1) st₁ d.sound in
    (
      st₂,
      ap
            (λ o. elim o [
              | ok a z ↦ clean_screens_from left (idx + 1) z
              | deadlock ↦ deadlock
              | fault ↦ fault
              | stuck ↦ stuck
            ])
            e
          ∙ e',
      record {
        sound = c.sound;
        cleaned = λ s low high. ground (arith, c.cleaned s, c.kept s, d.idle);
        kept = λ q x. c.kept q (omega arith) ∙ d.kept q (omega arith);
      },
    )

-- From a store where users and screens are linked both ways, CleanScreens returns; then none of the
-- fifteen screens shows a user or takes media, no user is on one of them, and the links are sound.
pub clean_screens-clears :
    (st : Store)
    → Sound st
    → (st' : Store) × (clean_screens st ≡ ok tt st')
      × Sound st'
      × ((s : ℕ)
          → s < maximal_screen_num
          → st'.screens s ≡ record { user = none; media_active = false })
      × ((p s : ℕ) (u : User) → st'.users p ≡ some u → s < maximal_screen_num → u.screen ≢ some s)
unfolding clean_screens
clean_screens-clears st v =
    let (st', e, c) = clean_screens_from-Cleaned maximal_screen_num 0 st v in
    (
      st',
      e,
      c.sound,
      (λ s x. ground (arith, c.cleaned s, c.sound.linked.active s)),
      λ p s u h x on. ground (arith, c.cleaned s, (c.sound.linked.shown p s u h on).0),
    )

pub clean_screens-Keeps : Keeps Sound clean_screens
clean_screens-Keeps = record {
  run = λ st v.
      let (st', e, sound, shown, users) = clean_screens-clears st v in
      Runs-equal _ clean_screens st tt st' e sound;
}
