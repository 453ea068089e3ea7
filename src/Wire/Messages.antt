-- ===== src/Wire/Messages.antt =====
-- The parameter constructors on messages that are laid out as the protocol says.
use real_time_monitor_agent.Base.{ℕ, ◌^◌, ◌<◌, ◌≡◌, ap, ◌∙◌, List, [], ◌++◌, arith}
use real_time_monitor_agent.Base.Words.{IsU16, IsU32, sub16}
use real_time_monitor_agent.Wire.Order.{NetOrder, network_bytes}
use real_time_monitor_agent.Wire.Serialize.{two, four, eight, serialize-network_bytes}
use real_time_monitor_agent.Wire.Cursor.{
  Cursor, Parse, Parser, bind-parsed, parsed, ◌>>=◌, ntoh_assign,
}
use real_time_monitor_agent.Wire.Parameters.{
  TcpParameter, tcp_parameter, AddUserParameter, add_user_parameter, DelUserParameter,
  del_user_parameter, ModMediaParameter, mod_media_parameter, UdpParameter, udp_parameter,
  NatParameter, nat_parameter,
}
use real_time_monitor_agent.Wire.RoundTrip.{ntoh_assign-network_bytes}
use real_time_monitor_agent.Wire.Layout.{
  head, body, head_bytes, HeadFits, BodyFits, request_bytes-head,
}
use real_time_monitor_agent.Wire.Requests.{
  Request, Nat, login, logout, link_room, unlink_room, link_room_user, unlink_room_user, keep_alive,
  request_bytes, nat_bytes,
}
use mathlib.Core.Path.{ap₂}

abbrev pub at : List ℕ → ℕ → Cursor
at bs l = record { memory = bs; storage_len = l }

module _ (o : NetOrder) where
  pub reads_2 :
      {B : Type 0} (f : ℕ → Parser B) (v : ℕ) (bs : List ℕ) (l : ℕ) {r : Parse B}
      → IsU16 v
      → f v (at bs (sub16 l 2)) ≡ r
      → (ntoh_assign o 2 >>= f) (at (network_bytes 2 v ++ bs) l) ≡ r
  reads_2 f v bs l h = bind-parsed (ntoh_assign o 2) f (ntoh_assign-network_bytes o v bs l two h)

  pub reads_4 :
      {B : Type 0} (f : ℕ → Parser B) (v : ℕ) (bs : List ℕ) (l : ℕ) {r : Parse B}
      → IsU32 v
      → f v (at bs (sub16 l 4)) ≡ r
      → (ntoh_assign o 4 >>= f) (at (network_bytes 4 v ++ bs) l) ≡ r
  reads_4 f v bs l h = bind-parsed (ntoh_assign o 4) f (ntoh_assign-network_bytes o v bs l four h)

  pub reads_8 :
      {B : Type 0} (f : ℕ → Parser B) (v : ℕ) (bs : List ℕ) (l : ℕ) {r : Parse B}
      → v < 2 ^ 64
      → f v (at bs (sub16 l 8)) ≡ r
      → (ntoh_assign o 8 >>= f) (at (network_bytes 8 v ++ bs) l) ≡ r
  reads_8 f v bs l h = bind-parsed (ntoh_assign o 8) f (ntoh_assign-network_bytes o v bs l eight h)

  pub tcp_parameter-head_bytes :
      (h : TcpParameter) (rest : List ℕ) (l : ℕ)
      → IsU16 h.length
      → HeadFits h
      → tcp_parameter o (at (head_bytes h rest) l) ≡ parsed h (at rest (sub16 l 8))
  unfolding tcp_parameter
  tcp_parameter-head_bytes h rest l hl (ht, hp, hc) = reads_2 _ h.length _ l hl (
      reads_2 _ h.client_request_type _ _ ht (
        reads_2 _ h.proxy_id _ _ hp
          (reads_2 _ h.client_id rest _ hc (ap (λ k. parsed h (at rest k)) (omega arith)))))

  -- A message that adds a user, its fields in network order and in the ranges of their types, is read
  -- as it was meant, whatever follows it.
  pub add_user_parameter-message :
      (p : AddUserParameter) (rest : List ℕ) (l : ℕ)
      → IsU16 p.tcp.length
        × HeadFits p.tcp
        × IsU32 p.room_id
        × (p.user_id < 2 ^ 64)
        × IsU32 p.mic_id
      → add_user_parameter o (
          at
            (head_bytes p.tcp (
              network_bytes 4 p.room_id
              ++ (network_bytes 8 p.user_id ++ (network_bytes 4 p.mic_id ++ rest))))
            l)
        ≡ parsed p (at rest (sub16 l 24))
  unfolding add_user_parameter
  add_user_parameter-message p rest l (hl, hh, hr, hu, hm) =
      bind-parsed (tcp_parameter o) _ (tcp_parameter-head_bytes p.tcp _ l hl hh) (
        reads_4 _ p.room_id _ _ hr (
          reads_8 _ p.user_id _ _ hu
            (reads_4 _ p.mic_id rest _ hm (ap (λ k. parsed p (at rest k)) (omega arith)))))

  pub del_user_parameter-message :
      (p : DelUserParameter) (rest : List ℕ) (l : ℕ)
      → IsU16 p.tcp.length × HeadFits p.tcp × IsU32 p.room_id × (p.user_id < 2 ^ 64)
      → del_user_parameter o (
          at
            (head_bytes p.tcp (network_bytes 4 p.room_id ++ (network_bytes 8 p.user_id ++ rest)))
            l)
        ≡ parsed p (at rest (sub16 l 20))
  unfolding del_user_parameter
  del_user_parameter-message p rest l (hl, hh, hr, hu) =
      bind-parsed (tcp_parameter o) _ (tcp_parameter-head_bytes p.tcp _ l hl hh) (
        reads_4 _ p.room_id _ _ hr
          (reads_8 _ p.user_id rest _ hu (ap (λ k. parsed p (at rest k)) (omega arith))))

  -- A message that changes the media of a user, its fields in network order and in the ranges of their
  -- types, is read as it was meant, whatever follows it.
  pub mod_media_parameter-message :
      (p : ModMediaParameter) (rest : List ℕ) (l : ℕ)
      → IsU16 p.tcp.length
        × HeadFits p.tcp
        × IsU32 p.room_id
        × (p.user_id < 2 ^ 64)
        × IsU32 p.audio_ssrc
        × IsU32 p.video_ssrc
      → mod_media_parameter o (
          at
            (head_bytes p.tcp (
              network_bytes 4 p.room_id
              ++ (network_bytes 8 p.user_id
                  ++ (network_bytes 4 p.audio_ssrc ++ (network_bytes 4 p.video_ssrc ++ rest)))))
            l)
        ≡ parsed p (at rest (sub16 l 28))
  unfolding mod_media_parameter
  mod_media_parameter-message p rest l (hl, hh, hr, hu, ha, hv) =
      bind-parsed (tcp_parameter o) _ (tcp_parameter-head_bytes p.tcp _ l hl hh) (
        reads_4 _ p.room_id _ _ hr (
          reads_8 _ p.user_id _ _ hu (
            reads_4 _ p.audio_ssrc _ _ ha
              (reads_4 _ p.video_ssrc rest _ hv (ap (λ k. parsed p (at rest k)) (omega arith))))))

  udp_parameter-bytes :
      (p : UdpParameter) (rest : List ℕ) (l : ℕ)
      → IsU16 p.avs_request_type
      → IsU16 p.proxy_id
      → IsU32 p.room_id
      → udp_parameter o (
          at
            (network_bytes 2 p.avs_request_type
              ++ (network_bytes 2 p.proxy_id ++ (network_bytes 4 p.room_id ++ rest)))
            l)
        ≡ parsed p (at rest (sub16 l 8))
  unfolding udp_parameter
  udp_parameter-bytes p rest l ht hp hr = reads_2 _ p.avs_request_type _ l ht (
      reads_2 _ p.proxy_id _ _ hp
        (reads_4 _ p.room_id rest _ hr (ap (λ k. parsed p (at rest k)) (omega arith))))

  pub nat_parameter-message :
      (p : NatParameter) (rest : List ℕ) (l : ℕ)
      → IsU16 p.udp.avs_request_type
        × IsU16 p.udp.proxy_id
        × IsU32 p.udp.room_id
        × IsU16 p.client_id
      → nat_parameter o (
          at
            (network_bytes 2 p.udp.avs_request_type
              ++ (network_bytes 2 p.udp.proxy_id
                  ++ (network_bytes 4 p.udp.room_id ++ (network_bytes 2 p.client_id ++ rest))))
            l)
        ≡ parsed p (at rest (sub16 l 10))
  unfolding nat_parameter
  nat_parameter-message p rest l (ht, hp, hr, hc) =
      bind-parsed (udp_parameter o) _ (udp_parameter-bytes p.udp _ l ht hp hr)
        (reads_2 _ p.client_id rest _ hc (ap (λ k. parsed p (at rest k)) (omega arith)))

  -- A request that is followed by other bytes: the head fields are read back as they were set,
  -- and the pointer stands at the body.
  pub tcp_parameter-request_bytes :
      (q : Request) (rest : List ℕ) (l : ℕ)
      → HeadFits (head q)
      → BodyFits q
      → tcp_parameter o (at (request_bytes o q ++ rest) l)
        ≡ parsed (head q) (at (body q ++ rest) (sub16 l 8))
  tcp_parameter-request_bytes q rest l h k =
      ap (λ bs. tcp_parameter o (at (bs ++ rest) l)) (request_bytes-head o q h k)
      ∙ tcp_parameter-head_bytes (head q) (body q ++ rest) l (head_length q) h
    where
      head_length : (q : Request) → IsU16 (head q).length
      head_length (login r) = omega arith
      head_length (logout r) = omega arith
      head_length (link_room r) = omega arith
      head_length (unlink_room r) = omega arith
      head_length (link_room_user r) = omega arith
      head_length (unlink_room_user r) = omega arith
      head_length (keep_alive r) = omega arith

  nat_bytes-layout :
      (r : Nat) (rest : List ℕ)
      → IsU16 r.client_request_type
      → IsU16 r.proxy_id
      → IsU32 r.room_id
      → IsU16 r.client_id
      → nat_bytes o r ++ rest
        ≡ network_bytes 2 r.client_request_type
          ++ (network_bytes 2 r.proxy_id
              ++ (network_bytes 4 r.room_id ++ (network_bytes 2 r.client_id ++ rest)))
  unfolding nat_bytes
  nat_bytes-layout r rest ht hp hr hc =
      ap (λ bs. bs ++ rest)
        (ap₂ ◌++◌ (serialize-network_bytes o r.client_request_type two ht) (
          ap₂ ◌++◌ (serialize-network_bytes o r.proxy_id two hp) (
            ap₂ ◌++◌ (serialize-network_bytes o r.room_id four hr)
              (ap (λ bs. bs ++ []) (serialize-network_bytes o r.client_id two hc)))))

  -- The NAT datagram that the client sends is read back by the parameter that it reads the
  -- answer with.
  pub nat_parameter-nat_bytes :
      (r : Nat) (rest : List ℕ) (l : ℕ)
      → IsU16 r.client_request_type
      → IsU16 r.proxy_id
      → IsU32 r.room_id
      → IsU16 r.client_id
      → nat_parameter o (at (nat_bytes o r ++ rest) l)
        ≡ parsed
            (record {
              udp = record {
                avs_request_type = r.client_request_type;
                proxy_id = r.proxy_id;
                room_id = r.room_id;
              };
              client_id = r.client_id;
            })
            (at rest (sub16 l 10))
  nat_parameter-nat_bytes r rest l ht hp hr hc =
      ap (λ bs. nat_parameter o (at bs l)) (nat_bytes-layout r rest ht hp hr hc)
      ∙ nat_parameter-message _ rest l (ht, hp, hr, hc)
