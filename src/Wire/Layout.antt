-- ===== src/Wire/Layout.antt =====
-- The bytes of the requests, as the proxy reads them.
use real_time_monitor_agent.Base.{ℕ, ◌^◌, ◌<◌, ◌≡◌, refl, ap, List, [], ◌++◌, arith}
use mathlib.Core.Path.{ap₂, subst, sym}
use real_time_monitor_agent.Base.Words.{IsByte, IsU16, IsU32}
use real_time_monitor_agent.Wire.Order.{NetOrder, store, network_bytes}
use real_time_monitor_agent.Wire.Serialize.{
  serialize, one, two, four, eight, serialize-network_bytes,
}
use real_time_monitor_agent.Wire.Parameters.{TcpParameter}
use real_time_monitor_agent.Wire.Requests.{
  Request, login, logout, link_room, unlink_room, link_room_user, unlink_room_user, keep_alive,
  request_bytes,
}
use real_time_monitor_agent.Framing.Stream.{IsPacket}

-- The four fields that every TCP message begins with.
abbrev pub head : Request → TcpParameter
head (login r) = record {
  length = 12;
  client_request_type = r.client_request_type;
  proxy_id = r.proxy_id;
  client_id = r.client_id;
}
head (logout r) = record {
  length = 6;
  client_request_type = r.client_request_type;
  proxy_id = r.proxy_id;
  client_id = r.client_id;
}
head (link_room r) = record {
  length = 10;
  client_request_type = r.client_request_type;
  proxy_id = r.proxy_id;
  client_id = r.client_id;
}
head (unlink_room r) = record {
  length = 10;
  client_request_type = r.client_request_type;
  proxy_id = r.proxy_id;
  client_id = r.client_id;
}
head (link_room_user r) = record {
  length = 19;
  client_request_type = r.client_request_type;
  proxy_id = r.proxy_id;
  client_id = r.client_id;
}
head (unlink_room_user r) = record {
  length = 19;
  client_request_type = r.client_request_type;
  proxy_id = r.proxy_id;
  client_id = r.client_id;
}
head (keep_alive r) = record {
  length = 6;
  client_request_type = r.client_request_type;
  proxy_id = r.proxy_id;
  client_id = r.client_id;
}

-- What follows them. The address of the login is in network order from the start.
abbrev pub body : Request → List ℕ
body (login r) = store 4 r.media_ip ++ network_bytes 2 r.media_port
body (logout r) = []
body (link_room r) = network_bytes 4 r.room_id
body (unlink_room r) = network_bytes 4 r.room_id
body (link_room_user r) =
    network_bytes 4 r.room_id ++ (network_bytes 8 r.user_id ++ network_bytes 1 r.link_media_mask)
body (unlink_room_user r) =
    network_bytes 4 r.room_id ++ (network_bytes 8 r.user_id ++ network_bytes 1 r.unlink_media_mask)
body (keep_alive r) = []

abbrev pub head_bytes : TcpParameter → List ℕ → List ℕ
head_bytes h rest =
    network_bytes 2 h.length
    ++ (network_bytes 2 h.client_request_type
        ++ (network_bytes 2 h.proxy_id ++ (network_bytes 2 h.client_id ++ rest)))

-- The fields lie in the ranges of their types.
abbrev pub HeadFits : TcpParameter → Type 0
HeadFits h = IsU16 h.client_request_type × IsU16 h.proxy_id × IsU16 h.client_id

abbrev pub BodyFits : Request → Type 0
BodyFits (login r) = IsU32 r.media_ip × IsU16 r.media_port
BodyFits (logout r) = Unit {0}
BodyFits (link_room r) = IsU32 r.room_id
BodyFits (unlink_room r) = IsU32 r.room_id
BodyFits (link_room_user r) = IsU32 r.room_id × (r.user_id < 2 ^ 64) × IsByte r.link_media_mask
BodyFits (unlink_room_user r) = IsU32 r.room_id × (r.user_id < 2 ^ 64) × IsByte r.unlink_media_mask
BodyFits (keep_alive r) = Unit {0}

module _ (o : NetOrder) where
  stores :
      (v : ℕ) {xs ys : List ℕ}
      → IsU16 v
      → xs ≡ ys
      → store 2 (serialize o 2 v) ++ xs ≡ network_bytes 2 v ++ ys
  stores v h e = ap₂ ◌++◌ (serialize-network_bytes o v two h) e

  stores_4 :
      (v : ℕ) {xs ys : List ℕ}
      → IsU32 v
      → xs ≡ ys
      → store 4 (serialize o 4 v) ++ xs ≡ network_bytes 4 v ++ ys
  stores_4 v h e = ap₂ ◌++◌ (serialize-network_bytes o v four h) e

  stores_id :
      (v m : ℕ)
      → v < 2 ^ 64
      → IsByte m
      → store 8 (serialize o 8 v) ++ (store 1 (serialize o 1 m) ++ [])
        ≡ network_bytes 8 v ++ network_bytes 1 m
  stores_id v m h k =
      ap₂ ◌++◌ (serialize-network_bytes o v eight h)
        (ap (λ x. x ++ []) (serialize-network_bytes o m one k))

  head_stores :
      (l t p c : ℕ) {xs ys : List ℕ}
      → IsU16 l
      → IsU16 t × IsU16 p × IsU16 c
      → xs ≡ ys
      → store 2 (serialize o 2 l)
          ++ (store 2 (serialize o 2 t)
              ++ (store 2 (serialize o 2 p) ++ (store 2 (serialize o 2 c) ++ xs)))
        ≡ head_bytes
            (record { length = l; client_request_type = t; proxy_id = p; client_id = c })
            ys
  head_stores l t p c hl (ht, hp, hc) e = stores l hl (stores t ht (stores p hp (stores c hc e)))

  -- Every request lies in the packet as its four head fields and its body, in network order, and
  -- the length field is the size of the struct less 2.
  pub request_bytes-head :
      (q : Request)
      → HeadFits (head q)
      → BodyFits q
      → request_bytes o q ≡ head_bytes (head q) (body q)
  unfolding request_bytes
  request_bytes-head (login r) h (ki, kp) =
      head_stores 12 _ _ _ (omega arith) h
        (ap (◌++◌ (store 4 r.media_ip)) (stores r.media_port kp refl))
  request_bytes-head (logout r) h k = head_stores 6 _ _ _ (omega arith) h refl
  request_bytes-head (link_room r) h k =
      head_stores 10 _ _ _ (omega arith) h (stores_4 r.room_id k refl)
  request_bytes-head (unlink_room r) h k =
      head_stores 10 _ _ _ (omega arith) h (stores_4 r.room_id k refl)
  request_bytes-head (link_room_user r) h (kr, ku, km) =
      head_stores 19 _ _ _ (omega arith) h
        (stores_4 r.room_id kr (stores_id r.user_id r.link_media_mask ku km))
  request_bytes-head (unlink_room_user r) h (kr, ku, km) =
      head_stores 19 _ _ _ (omega arith) h
        (stores_4 r.room_id kr (stores_id r.user_id r.unlink_media_mask ku km))
  request_bytes-head (keep_alive r) h k = head_stores 6 _ _ _ (omega arith) h refl

  -- Every request whose fields lie in the ranges of their types is bytes, and its length field counts
  -- those behind it.
  pub request_bytes-IsPacket :
      (q : Request) → HeadFits (head q) → BodyFits q → IsPacket (request_bytes o q)
  request_bytes-IsPacket q h k = subst IsPacket (sym (request_bytes-head q h k)) (framed q h k)
    where
      framed :
          (q : Request) → HeadFits (head q) → BodyFits q → IsPacket (head_bytes (head q) (body q))
      framed (login r) h k = record { bytes = omega arith; whole = refl; small = omega arith }
      framed (logout r) h k = record { bytes = omega arith; whole = refl; small = omega arith }
      framed (link_room r) h k = record { bytes = omega arith; whole = refl; small = omega arith }
      framed (unlink_room r) h k = record { bytes = omega arith; whole = refl; small = omega arith }
      framed (link_room_user r) h k = record {
        bytes = omega arith;
        whole = refl;
        small = omega arith;
      }
      framed (unlink_room_user r) h k = record {
        bytes = omega arith;
        whole = refl;
        small = omega arith;
      }
      framed (keep_alive r) h k = record { bytes = omega arith; whole = refl; small = omega arith }
