-- ===== src/Wire/Examples.antt =====
-- Messages and requests with concrete fields.
use real_time_monitor_agent.Base.{ℕ, ◌≡◌, refl, [], ◌∷◌, ◌++◌, arith}
use real_time_monitor_agent.Base.Words.{sub16}
use real_time_monitor_agent.Wire.Order.{x86_order, network_bytes}
use real_time_monitor_agent.Wire.Cursor.{parsed, outside}
use real_time_monitor_agent.Wire.Requests.{Request, link_room_user, request_bytes}
use real_time_monitor_agent.Wire.Parameters.{tcp_parameter, AddUserParameter}
use real_time_monitor_agent.Wire.Layout.{head, body, head_bytes}
use real_time_monitor_agent.Wire.Messages.{at, tcp_parameter-request_bytes}
use real_time_monitor_agent.Wire.RoomsInfo.{RoomsInfoParameter, room_info, rooms_info_parameter}
use real_time_monitor_agent.Wire.RoomsInfo.Reading.{rooms_bytes, rooms_info_parameter-message}
use real_time_monitor_agent.Wire.RoomsInfo.Bounds.{room_info_endless}

abbrev request : Request
request = link_room_user (record {
  length = 0;
  client_request_type = 4;
  proxy_id = 7;
  client_id = 300;
  room_id = 70000;
  user_id = 5;
  link_media_mask = 2;
})

tcp_parameter-request_bytes_example :
    tcp_parameter x86_order (at (request_bytes x86_order request ++ (1 ∷ [])) 22)
    ≡ parsed (head request) (at (body request ++ (1 ∷ [])) (sub16 22 8))
tcp_parameter-request_bytes_example =
    tcp_parameter-request_bytes x86_order request (1 ∷ []) 22
      (omega arith, omega arith, omega arith) (omega arith, omega arith, omega arith)

abbrev added : AddUserParameter
added = record {
  tcp = record { length = 22; client_request_type = 3; proxy_id = 7; client_id = 300 };
  room_id = 9;
  user_id = 5;
  mic_id = 1;
}

abbrev rooms : RoomsInfoParameter
rooms = record {
  tcp = record { length = 38; client_request_type = 2; proxy_id = 7; client_id = 300 };
  room_count = 1;
  rooms_info =
      record {
        room_id = 9;
        user_count = 1;
        users_info = record { user_id = 5; mic_id = 1; audio_ssrc = 70; video_ssrc = 71 } ∷ [];
      }
      ∷ [];
}

rooms_info_parameter-message_example :
    (l' : ℕ) × (rooms_info_parameter x86_order
        (at (head_bytes rooms.tcp (network_bytes 4 1 ++ rooms_bytes rooms.rooms_info [])) 40)
      ≡ parsed rooms (at [] l'))
rooms_info_parameter-message_example =
    rooms_info_parameter-message x86_order rooms [] 40 (omega arith)
      (omega arith, omega arith, omega arith) refl (omega arith)
      (
        (
          omega arith,
          refl,
          omega arith,
          ((omega arith, omega arith, omega arith, omega arith), tt),
        ),
        tt,
      )

room_info_endless_example :
    room_info x86_order (at (network_bytes 4 9 ++ (network_bytes 4 256 ++ (1 ∷ (2 ∷ [])))) 10)
    ≡ outside
room_info_endless_example =
    room_info_endless x86_order 9 256 (1 ∷ (2 ∷ [])) 10 (omega arith) (omega arith) (omega arith)
