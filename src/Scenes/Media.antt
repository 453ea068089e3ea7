-- ===== src/Scenes/Media.antt =====
-- Media datagrams and the screens that they reach, through the index maps that User keeps.
use real_time_monitor_agent.Base.{
  ℕ, ◌<◌, ◌≡◌, ◌≢◌, ◌↔◌, List, none, some, true, arith, ltb, if◌then◌else◌,
}
use real_time_monitor_agent.Wire.Order.{NetOrder}
use real_time_monitor_agent.Wire.Cursor.{Cursor}
use real_time_monitor_agent.Store.{Store, User, ok, success, update, maximal_screen_num}
use real_time_monitor_agent.Users.{
  index_insert, mod_media, screen_connect_user, screen_disconnect_user,
}
use real_time_monitor_agent.Users.Consistent.{
  attached, detached, screen_connect_user-attached, screen_disconnect_user-detached,
}
use real_time_monitor_agent.Scenes.{
  Dispatched, dropped, overrun, audio, video, udp_param_scene, rtp_expand_payload_type,
  rtp_media_audio_type, rtp_media_video_type,
}

-- The dispatch of a media datagram of a store.
abbrev pub dispatch : NetOrder → List (ℕ × ℕ) → Cursor → Store → ℕ → ℕ → Dispatched
dispatch o linked c st pt ssrc = udp_param_scene o linked st.audio_map st.video_map pt ssrc c

module _ (o : NetOrder) (linked : List (ℕ × ℕ)) (c : Cursor) (some_bytes : 0 < c.storage_len) where
  -- Once a user is connected to one of the fifteen screens, the video and the audio of its sources, which
  -- no other user had, reach that screen.
  pub connected_media :
      (s p : ℕ) (u : User) (st : Store)
      → st.users p ≡ some u
      → 0 < u.video_ssrc
      → 0 < u.audio_ssrc
      → st.video_map u.video_ssrc ≡ none
      → st.audio_map u.audio_ssrc ≡ none
      → s < maximal_screen_num
      → (st' : Store) × (screen_connect_user s (some p) st ≡ ok success st')
        × (dispatch o linked c st' rtp_media_video_type u.video_ssrc ≡ video s)
        × (dispatch o linked c st' rtp_media_audio_type u.audio_ssrc ≡ audio s)
  unfolding udp_param_scene
  connected_media s p u st h pos pos' new new' small =
      (attached s p u st, screen_connect_user-attached s p u st h, ground arith, ground arith)

  -- Once the user of a screen is disconnected, the media of its sources are dropped.
  pub disconnected_media :
      (s p : ℕ) (u : User) (st : Store)
      → (st.screens s).user ≡ some p
      → st.users p ≡ some u
      → (st' : Store) × (screen_disconnect_user s st ≡ ok success st')
        × (dispatch o linked c st' rtp_media_video_type u.video_ssrc ≡ dropped)
        × (dispatch o linked c st' rtp_media_audio_type u.audio_ssrc ≡ dropped)
  unfolding udp_param_scene
  disconnected_media s p u st e h =
      (detached s p u st, screen_disconnect_user-detached s p u st e h, ground arith, ground arith)

  -- A user on a screen gets another video source and is taken off the screen, and another user is then
  -- connected to it: the media of the old source of the first one, which the map still holds, are handed
  -- to VideoScene of that screen, which is active and belongs to the second user.
  pub stale_media :
      (s p q audio_ssrc video_ssrc : ℕ) (u v : User) (st : Store)
      → (st.screens s).user ≡ some p
      → st.users p ≡ some u
      → st.users q ≡ some v
      → p ≢ q
      → u.screen ≡ some s
      → st.video_map u.video_ssrc ≡ some s
      → u.video_ssrc ≢ video_ssrc
      → s < maximal_screen_num
      → (st₁ st₂ st₃ : Store) × (mod_media p audio_ssrc video_ssrc st ≡ ok tt st₁)
        × (screen_disconnect_user s st₁ ≡ ok success st₂)
        × (screen_connect_user s (some q) st₂ ≡ ok success st₃)
        × (st₃.screens s ≡ record { user = some q; media_active = true })
        × (dispatch o linked c st₃ rtp_media_video_type u.video_ssrc ≡ video s)
  unfolding udp_param_scene mod_media
  stale_media s p q audio_ssrc video_ssrc u v st e h hq apart on mapped other small =
      let w : User = record u { audio_ssrc = audio_ssrc; video_ssrc = video_ssrc } in
      let st₁ : Store = record st {
        users = update st.users p (some w);
        audio_map =
            if ltb 0 audio_ssrc
            then index_insert audio_ssrc u.screen_idx st.audio_map
            else st.audio_map;
        video_map =
            if ltb 0 video_ssrc
            then index_insert video_ssrc u.screen_idx st.video_map
            else st.video_map;
      } in
      let st₂ : Store = detached s p w st₁ in
      let kept : st₂.video_map u.video_ssrc ≡ some s = ground arith in
      (
        st₁,
        st₂,
        attached s q v st₂,
        ground arith,
        screen_disconnect_user-detached s p w st₁ e (ground arith),
        screen_connect_user-attached s q v st₂ (ground arith),
        ground arith,
        ground (arith, kept),
      )

  -- A media datagram, of any payload type but that of the extension, leaves the array of the index maps,
  -- which has two elements, exactly when its type is neither that of video nor that of audio.
  pub media_index-overruns :
      (st : Store) (pt ssrc : ℕ)
      → pt ≢ rtp_expand_payload_type
      → (dispatch o linked c st pt ssrc ≡ overrun)
        ↔ ((pt ≢ rtp_media_video_type) × (pt ≢ rtp_media_audio_type))
  unfolding udp_param_scene
  media_index-overruns st pt ssrc ne =
      (λ h. (λ e. ground (arith, h, e), λ e. ground (arith, h, e)), λ h. ground (arith, h.0, h.1))
