-- ===== src/Framing/Examples.antt =====
-- Two packets in two chunks, the second of which has one byte, and buffers that a hostile proxy fills.

use real_time_monitor_agent.Base.{
  ℕ, zero, suc, ◌≡◌, refl, ◌↔◌, List, [], ◌∷◌, none, some, arith, All, replicate, map,
  length-replicate,
}
use real_time_monitor_agent.Base.Words.{IsByte}
use real_time_monitor_agent.Wire.Order.{x86_order}
use real_time_monitor_agent.Wire.Requests.{Request, keep_alive, logout, request_bytes}
use real_time_monitor_agent.Wire.Layout.{request_bytes-head}
use real_time_monitor_agent.Framing.Requests.{on_chunks-requests}
use real_time_monitor_agent.Framing.{
  packet, Buffer, Drained, drain, on_bytes, receive, max_storage_size,
}
use real_time_monitor_agent.Framing.Stream.{IsPacket, IsPartial}
use real_time_monitor_agent.Framing.Buffers.{IsBuffer, pending}
use real_time_monitor_agent.Framing.Packets.{Delivers}
use real_time_monitor_agent.Framing.Chunks.{on_chunks, Arrive, on_chunks-Delivers}
use real_time_monitor_agent.Framing.Faults.{
  InStorage, Stalls, on_bytes-Safe, on_bytes-Stalls_iff, on_bytes_torn_header,
}

zeros-IsByte : (n : ℕ) → All IsByte (replicate n 0)
zeros-IsByte zero = tt
zeros-IsByte (suc n) = (omega arith, zeros-IsByte n)

-- The buffer of a new connection.
abbrev new_buffer : Buffer
new_buffer = record { storage = replicate max_storage_size 0; offset = 0 }

new_buffer-IsBuffer : IsBuffer new_buffer
new_buffer-IsBuffer = record {
  bytes = zeros-IsByte max_storage_size;
  size = length-replicate {A = ℕ} max_storage_size 0;
  room = omega arith;
}

abbrev first_packet : List ℕ
first_packet = 0 ∷ (1 ∷ (9 ∷ []))

abbrev second_packet : List ℕ
second_packet = 0 ∷ (2 ∷ (7 ∷ (8 ∷ [])))

abbrev packets : List (List ℕ)
packets = first_packet ∷ (second_packet ∷ [])

abbrev chunk : List ℕ
chunk = 0 ∷ (1 ∷ (9 ∷ (0 ∷ (2 ∷ (7 ∷ [])))))

chunk-IsByte : All IsByte chunk
chunk-IsByte =
    (omega arith, (omega arith, (omega arith, (omega arith, (omega arith, (omega arith, tt))))))

first_packet-IsPacket : IsPacket first_packet
first_packet-IsPacket = record {
  bytes = (omega arith, (omega arith, (omega arith, tt)));
  whole = refl;
  small = omega arith;
}

second_packet-IsPacket : IsPacket second_packet
second_packet-IsPacket = record {
  bytes = (omega arith, (omega arith, (omega arith, (omega arith, tt))));
  whole = refl;
  small = omega arith;
}

nothing-IsPartial : IsPartial []
nothing-IsPartial = record { bytes = tt; short = omega arith; small = omega arith }

-- The second chunk fits whatever the first left, since the handler leaves room for a byte.
chunks-Arrive : Arrive x86_order new_buffer (chunk ∷ ((8 ∷ []) ∷ []))
chunks-Arrive = (
  chunk-IsByte,
  omega arith,
  omega arith,
  λ d e.
      let (v, calls) =
        on_bytes-Safe x86_order new_buffer chunk d new_buffer-IsBuffer chunk-IsByte (omega arith)
          e in
      ((omega arith, tt), omega arith, omega (arith, v.room), λ d' e'. tt),
)

on_chunks-Delivers_example :
    (d : Drained) × (on_chunks x86_order new_buffer (chunk ∷ ((8 ∷ []) ∷ [])) ≡ some d)
    × Delivers packets [] d
on_chunks-Delivers_example =
    on_chunks-Delivers x86_order (chunk ∷ ((8 ∷ []) ∷ [])) new_buffer packets [] new_buffer-IsBuffer
      chunks-Arrive refl nothing-IsPartial (first_packet-IsPacket, (second_packet-IsPacket, tt))
      nothing-IsPartial

abbrev empty_drained : Drained
empty_drained = record {
  buffer = record { storage = 3 ∷ (0xff ∷ replicate 1022 0); offset = 0 };
  calls = [];
}

abbrev torn_buffer : Buffer
torn_buffer = record { storage = 0 ∷ (0xff ∷ replicate 1022 0); offset = 0 }

torn_buffer-IsBuffer : IsBuffer torn_buffer
torn_buffer-IsBuffer = record {
  bytes = (omega arith, (omega arith, zeros-IsByte 1022));
  size = omega (arith, length-replicate {A = ℕ} 1022 0);
  room = omega arith;
}

on_bytes-Safe_example : IsBuffer empty_drained.buffer × All InStorage empty_drained.calls
on_bytes-Safe_example =
    on_bytes-Safe x86_order torn_buffer (3 ∷ []) empty_drained torn_buffer-IsBuffer
      (omega arith, tt) (omega arith) (on_bytes_torn_header x86_order 0 (replicate 1022 0))

on_bytes-Stalls_iff_example :
    ((on_bytes x86_order new_buffer (0xff ∷ (0xfe ∷ [])) ≡ none)
      ↔ Stalls x86_order (receive new_buffer (0xff ∷ (0xfe ∷ []))))
    × ((on_bytes x86_order new_buffer (0xff ∷ (0xfe ∷ [])) ≡ none)
        ↔ ((fuel : ℕ) → drain x86_order fuel (receive new_buffer (0xff ∷ (0xfe ∷ []))) ≡ none))
on_bytes-Stalls_iff_example = on_bytes-Stalls_iff x86_order new_buffer (0xff ∷ (0xfe ∷ []))

-- A request to keep the connection and one to end it, in chunks of 15 bytes and one byte.
abbrev keeps : Request
keeps = keep_alive (record { length = 0; client_request_type = 6; proxy_id = 4; client_id = 2 })

abbrev ends : Request
ends = logout (record { length = 0; client_request_type = 1; proxy_id = 4; client_id = 2 })

abbrev two_requests : List Request
two_requests = keeps ∷ (ends ∷ [])

abbrev front : List ℕ
front = 0 ∷ (6 ∷ (0 ∷ (6 ∷ (0 ∷ (4 ∷ (0 ∷ (2 ∷ (0 ∷ (6 ∷ (0 ∷ (1 ∷ (0 ∷ (4 ∷ (0 ∷ []))))))))))))))

front-IsByte : All IsByte front
front-IsByte = omega arith

requests-Arrive : Arrive x86_order new_buffer (front ∷ ((2 ∷ []) ∷ []))
requests-Arrive = (
  front-IsByte,
  omega arith,
  omega arith,
  λ d e.
      let (v, calls) =
        on_bytes-Safe x86_order new_buffer front d new_buffer-IsBuffer front-IsByte (omega arith)
          e in
      ((omega arith, tt), omega arith, omega (arith, v.room), λ d' e'. tt),
)

on_chunks-requests_example :
    (d : Drained) × (on_chunks x86_order new_buffer (front ∷ ((2 ∷ []) ∷ [])) ≡ some d)
    × (map packet d.calls ≡ map (request_bytes x86_order) two_requests)
    × (pending d.buffer ≡ [])
on_chunks-requests_example =
    on_chunks-requests x86_order two_requests (front ∷ ((2 ∷ []) ∷ [])) new_buffer
      (
        ((omega arith, omega arith, omega arith), tt),
        (((omega arith, omega arith, omega arith), tt), tt),
      )
      new_buffer-IsBuffer refl requests-Arrive
      (rw
        (
          request_bytes-head x86_order keeps (omega arith, omega arith, omega arith) tt,
          request_bytes-head x86_order ends (omega arith, omega arith, omega arith) tt,
        )
        refl)
