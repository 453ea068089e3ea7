-- ===== src/Wall/Calls.antt =====
-- The calls that change users and screens, and what holds after any run of them.
use real_time_monitor_agent.Base.{ℕ, List, Option}
use real_time_monitor_agent.Store.{Store, Sent, M, PjStatus}
use real_time_monitor_agent.Store.Keeps.{Keeps, void, Keeps-void}
use real_time_monitor_agent.Store.Reaches.{Reaches, Reaches-Keeps}
use real_time_monitor_agent.Users.{screen_disconnect_user}
use real_time_monitor_agent.Rooms.{add_user, del_user, get_user, mod_user, on_destory}
use real_time_monitor_agent.Rooms.Invariant.{
  add_user-Keeps, del_user-Keeps, get_user-Keeps, mod_user-Keeps, on_destory-Keeps,
}
use real_time_monitor_agent.Wall.{link_screen_user, clean_screens}
use real_time_monitor_agent.Wall.Invariant.{Sound, screen_disconnect_user-Keeps}
use real_time_monitor_agent.Wall.Linking.{link_screen_user-Keeps}
use real_time_monitor_agent.Wall.Cleaning.{clean_screens-Keeps}

pub data Call : Type 0 where
  adds : (r user_id mic_id : ℕ) → Call
  deletes : (r user_id : ℕ) → Call
  gets : (r user_id : ℕ) → Call
  modifies : (r : ℕ) (user : Option ℕ) (audio_ssrc video_ssrc : ℕ) → Call
  destroys : (r : ℕ) → Call
  links : (new_screen_idx : ℕ) (user : Option ℕ) → Call
  disconnects : (s : ℕ) → Call
  cleans : Call

module _ (net : List Sent → Sent → PjStatus) where
  unfoldable pub perform : Call → M (Unit {0})
  perform (adds r user_id mic_id) = void (add_user r user_id mic_id)
  perform (deletes r user_id) = void (del_user r user_id)
  perform (gets r user_id) = void (get_user r user_id)
  perform (modifies r user audio_ssrc video_ssrc) = mod_user r user audio_ssrc video_ssrc
  perform (destroys r) = on_destory r
  perform (links new_screen_idx user) = link_screen_user net new_screen_idx user
  perform (disconnects s) = void (screen_disconnect_user s)
  perform cleans = clean_screens

  pub perform-Keeps : (c : Call) → Keeps Sound (perform c)
  unfolding perform
  perform-Keeps (adds r user_id mic_id) = Keeps-void (add_user-Keeps r user_id mic_id)
  perform-Keeps (deletes r user_id) = Keeps-void (del_user-Keeps r user_id)
  perform-Keeps (gets r user_id) = Keeps-void (get_user-Keeps r user_id)
  perform-Keeps (modifies r user audio_ssrc video_ssrc) =
      mod_user-Keeps r user audio_ssrc video_ssrc
  perform-Keeps (destroys r) = on_destory-Keeps r
  perform-Keeps (links new_screen_idx user) = link_screen_user-Keeps net new_screen_idx user
  perform-Keeps (disconnects s) = Keeps-void (screen_disconnect_user-Keeps s)
  perform-Keeps cleans = clean_screens-Keeps

  -- Every run of these calls, in any order and with any network, leads from a sound store to a sound
  -- store: a screen shows a user exactly if the user is on that screen, so no user is on two screens
  -- and no screen points at a deleted user, and a screen takes media exactly if it shows a user.
  pub Reaches-Sound : (st st' : Store) → Sound st → Reaches perform st st' → Sound st'
  Reaches-Sound st st' v run = Reaches-Keeps perform Sound perform-Keeps st st' v run
