-- ===== src/Scenes/Datagrams.antt =====
-- What arrives at the UDP socket (EventOnUdpRead of Monitor/Monitor/ScreenMgr.cpp). The RTP library is a
-- parameter.
use real_time_monitor_agent.Base.{
  ℕ, ◌++◌, ◌%◌, ◌^◌, ◌≡◌, ◌<◌, ◌≤◌, List, Option, none, some, ltb, ◌==◌, if◌then◌else◌, length,
  arith,
}
use real_time_monitor_agent.Wire.Order.{NetOrder}
use real_time_monitor_agent.Base.Words.{IsU16, IsU32}
use real_time_monitor_agent.Wire.Requests.{Nat, nat_bytes}
use real_time_monitor_agent.Wire.Messages.{nat_parameter-nat_bytes}
use real_time_monitor_agent.Wire.Cursor.{Cursor}
use real_time_monitor_agent.Scenes.{
  Dispatched, dropped, scheduled, nat, get_proxy, schedule, rtp_expand_payload_type,
  udp_param_scene,
}

-- The answer of pjmedia_rtp_decode_rtp: the type of the payload, the source and the payload.
pub record Decoded : Type 0 where
  pub pt : ℕ
  pub ssrc : ℕ
  pub payload : List ℕ

-- `sizeof(*rtp_hdr)`.
abbrev pub rtp_hdr_size : ℕ
rtp_hdr_size = 12

-- The memory from `bytes` on, of which the length is passed on in 16 bits.
abbrev pub at_bytes : List ℕ → Cursor
at_bytes bytes = record { memory = bytes; storage_len = length bytes % 2 ^ 16 }

module _ (o : NetOrder) (decode_rtp : List ℕ → Option Decoded) where
  -- On a datagram that pj_sock_recvfrom gives.
  unfoldable pub event_on_udp_read :
      List (ℕ × ℕ) → (ℕ → Option ℕ) → (ℕ → Option ℕ) → List ℕ → Dispatched
  unfolding udp_param_scene
  event_on_udp_read linked audio_map video_map datagram =
      if ltb (length datagram) rtp_hdr_size
      then dropped
      else if ltb (length datagram) (2 ^ 16)
      then elim (decode_rtp datagram) [
        | none ↦ dropped
        | some d ↦
            udp_param_scene o linked audio_map video_map d.pt d.ssrc
              (at_bytes (if d.pt == rtp_expand_payload_type then d.payload else datagram))
      ]
      else dropped

  -- A datagram that the RTP library takes for one of the payload type of the program, whose payload begins
  -- with a NAT message of a linked proxy: EventOnUdpRead schedules the NAT scene for the proxy, with the
  -- fields of the message.
  pub event_on_udp_read-nat_bytes :
      (linked : List (ℕ × ℕ)) (audio_map video_map : ℕ → Option ℕ) (datagram rest : List ℕ)
      (ssrc a : ℕ) (r : Nat)
      → rtp_hdr_size ≤ length datagram
      → length datagram < 2 ^ 16
      → decode_rtp datagram
        ≡ some
            (record { pt = rtp_expand_payload_type; ssrc = ssrc; payload = nat_bytes o r ++ rest })
      → 0 < length (nat_bytes o r ++ rest) % 2 ^ 16
      → IsU16 r.client_request_type
      → IsU16 r.proxy_id
      → IsU32 r.room_id
      → IsU16 r.client_id
      → get_proxy linked r.proxy_id ≡ some a
      → event_on_udp_read linked audio_map video_map datagram
        ≡ scheduled (
            nat
              (record {
                udp = record {
                  avs_request_type = r.client_request_type;
                  proxy_id = r.proxy_id;
                  room_id = r.room_id;
                };
                client_id = r.client_id;
              })
              a)
  unfolding event_on_udp_read schedule
  event_on_udp_read-nat_bytes linked audio_map video_map datagram rest ssrc a r long short decoded
        some_bytes ht hp hr hc found =
      let read =
        nat_parameter-nat_bytes o r rest (length (nat_bytes o r ++ rest) % 2 ^ 16) ht hp hr hc in
      ground (arith, decoded, read, found)
