-- ===== src/Scenes/Examples.antt =====
-- Messages and datagrams for the proxy and the users of the busy room.
use real_time_monitor_agent.Wire.Requests.{Nat, nat_bytes, serialize_nat}
use real_time_monitor_agent.Scenes.Datagrams.{
  Decoded, event_on_udp_read, event_on_udp_read-nat_bytes,
}
use real_time_monitor_agent.Base.{
  ℕ, Option, ◌++◌, replicate, ◌≡◌, ◌≢◌, ◌↔◌, refl, List, [], ◌∷◌, none, some, true, arith,
}
use real_time_monitor_agent.Base.OrdMap.{lookup}
use real_time_monitor_agent.Wire.Order.{x86_order}
use real_time_monitor_agent.Wire.Cursor.{Cursor}
use real_time_monitor_agent.Wire.Parameters.{TcpParameter, DelUserParameter, ModMediaParameter}
use real_time_monitor_agent.Wire.Layout.{head_bytes}
use real_time_monitor_agent.Wire.Messages.{at}
use real_time_monitor_agent.Store.{Store, User, Sent, ok, deadlock, PjStatus, success, update}
use real_time_monitor_agent.Users.{mod_media, screen_disconnect_user, screen_connect_user}
use real_time_monitor_agent.Rooms.Examples.{
  busy_store, busy_store-Housing, busy_room, linked_proxy, shown_user,
}
use real_time_monitor_agent.Scenes.{
  scheduled, nat, rtp_expand_payload_type, tcp_param_scene, get_proxy, del_user_scene,
  mod_media_scene, video, overrun, rtp_media_video_type, rtp_media_audio_type,
}
use real_time_monitor_agent.Scenes.Schedules.{
  Message, add_user_message, body_of, outcome, tcp_param_scene-outcome,
}
use real_time_monitor_agent.Scenes.Unknown.{unknown_user-deadlocks}
use real_time_monitor_agent.Scenes.Media.{dispatch, stale_media, media_index-overruns}

abbrev perfect_net : List Sent → Sent → PjStatus
perfect_net sent x = success

abbrev tcp : TcpParameter
tcp = record { length = 22; client_request_type = 3; proxy_id = 4; client_id = 2 }

abbrev added : Message
added = add_user_message (record { tcp = tcp; room_id = 9; user_id = 7; mic_id = 1 })

tcp_param_scene-outcome_example :
    tcp_param_scene x86_order ((4, 0) ∷ []) (at (head_bytes tcp (body_of added [])) 24)
    ≡ outcome added (get_proxy ((4, 0) ∷ []) 4)
tcp_param_scene-outcome_example =
    tcp_param_scene-outcome x86_order ((4, 0) ∷ []) added [] 24 (omega arith) (omega arith)
      (omega arith, omega arith, omega arith) refl (omega arith, omega arith, omega arith)

abbrev deleted : DelUserParameter
deleted = record { tcp = tcp; room_id = 9; user_id = 7 }

abbrev modified : ModMediaParameter
modified = record { tcp = tcp; room_id = 9; user_id = 8; audio_ssrc = 1; video_ssrc = 2 }

unknown_user-deadlocks_example :
    (del_user_scene perfect_net deleted 0 busy_store ≡ deadlock)
    × (mod_media_scene perfect_net modified 0 busy_store ≡ deadlock)
unknown_user-deadlocks_example =
    unknown_user-deadlocks perfect_net 0 0 linked_proxy busy_room busy_store refl deleted modified
      busy_store-Housing (unfold lookup in refl) (unfold lookup in refl) (unfold lookup in refl)
      (unfold lookup in refl)

abbrev datagram : Cursor
datagram = record { memory = 1 ∷ []; storage_len = 1 }

-- A user with two sources on no screen.
abbrev idle_user : User
idle_user = record {
  user_id = 7;
  mic_id = 1;
  screen = none;
  screen_idx = 0;
  title_room = some 0;
  audio_ssrc = 80;
  video_ssrc = 81;
}

abbrev idle_store : Store
idle_store = record busy_store { users = update busy_store.users 2 (some idle_user); fresh = 3 }

stale_media_example :
    (st₁ st₂ st₃ : Store) × (mod_media 0 90 91 idle_store ≡ ok tt st₁)
    × (screen_disconnect_user 3 st₁ ≡ ok success st₂)
    × (screen_connect_user 3 (some 2) st₂ ≡ ok success st₃)
    × (st₃.screens 3 ≡ record { user = some 2; media_active = true })
    × (dispatch x86_order [] datagram st₃ rtp_media_video_type 71 ≡ video 3)
stale_media_example =
    stale_media x86_order [] datagram (omega arith) 3 0 2 90 91 shown_user idle_user idle_store refl
      refl refl (λ e. omega arith) refl refl (λ e. omega arith) (omega arith)

media_index-overruns_example :
    (dispatch x86_order [] datagram busy_store 96 71 ≡ overrun)
    ↔ ((96 ≢ rtp_media_video_type) × (96 ≢ rtp_media_audio_type))
media_index-overruns_example =
    media_index-overruns x86_order [] datagram (omega arith) busy_store 96 71 (λ e. omega arith)

-- The answer of proxy 4 to the NAT message, in a datagram of 22 bytes.
abbrev nat_answer : Nat
nat_answer = record { client_request_type = 8; proxy_id = 4; room_id = 0; client_id = 2 }

abbrev nat_rtp : List ℕ → Option Decoded
nat_rtp bytes = some (record {
  pt = rtp_expand_payload_type;
  ssrc = 1;
  payload = nat_bytes x86_order nat_answer ++ [];
})

event_on_udp_read-nat_bytes_example :
    event_on_udp_read x86_order nat_rtp ((4, 0) ∷ []) (λ s. none) (λ s. none) (replicate 22 0)
    ≡ scheduled (
        nat
          (record {
            udp = record { avs_request_type = 8; proxy_id = 4; room_id = 0 };
            client_id = 2;
          })
          0)
event_on_udp_read-nat_bytes_example =
    event_on_udp_read-nat_bytes x86_order nat_rtp ((4, 0) ∷ []) (λ s. none) (λ s. none)
      (replicate 22 0) [] 1 0 nat_answer (omega arith) (omega arith) refl
      (unfold nat_bytes serialize_nat in omega arith) (omega arith) (omega arith) (omega arith)
      (omega arith) (unfold get_proxy lookup in refl)
