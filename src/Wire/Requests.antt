-- ===== src/Wire/Requests.antt =====
-- The request structs of Monitor/Monitor/AvsProxyStructs.h with their `Serialize` methods. They are
-- packed, so a struct lies in memory as its fields, one behind the other. Signed fields are bit
-- patterns. A request for unlinking a room is the struct for linking one.
use real_time_monitor_agent.Base.{ℕ, ◌-◌, List, [], ◌∷◌, ◌++◌}
use real_time_monitor_agent.Wire.Order.{NetOrder, store}
use real_time_monitor_agent.Wire.Serialize.{serialize}

-- A field: its size and its value.
pub record Field : Type 0 where
  pub size : ℕ
  pub value : ℕ

abbrev pub field : ℕ → ℕ → Field
field n v = record { size = n; value = v }

-- The bytes of packed fields.
abbrev pub memory : List Field → List ℕ
memory [] = []
memory (f ∷ fs) = store f.size f.value ++ memory fs

-- `sizeof` of a struct, minus the size of its `length`.
abbrev pub length_field : NetOrder → ℕ → ℕ
length_field o size = serialize o 2 (size - 2)

pub record Login : Type 0 where
  pub length : ℕ
  pub client_request_type : ℕ
  pub proxy_id : ℕ
  pub client_id : ℕ
  pub media_ip : ℕ
  pub media_port : ℕ

abbrev pub login_fields : Login → List Field
login_fields r =
    field 2 r.length
    ∷ field 2 r.client_request_type
    ∷ field 2 r.proxy_id
    ∷ field 2 r.client_id
    ∷ field 4 r.media_ip
    ∷ field 2 r.media_port
    ∷ []

unfoldable pub serialize_login : NetOrder → Login → Login
serialize_login o r = record {
  length = length_field o 14;
  client_request_type = serialize o 2 r.client_request_type;
  proxy_id = serialize o 2 r.proxy_id;
  client_id = serialize o 2 r.client_id;
  media_ip = r.media_ip;
  media_port = serialize o 2 r.media_port;
}

pub record Logout : Type 0 where
  pub length : ℕ
  pub client_request_type : ℕ
  pub proxy_id : ℕ
  pub client_id : ℕ

abbrev pub logout_fields : Logout → List Field
logout_fields r =
    field 2 r.length ∷ field 2 r.client_request_type ∷ field 2 r.proxy_id ∷ field 2 r.client_id ∷ []

unfoldable pub serialize_logout : NetOrder → Logout → Logout
serialize_logout o r = record {
  length = length_field o 8;
  client_request_type = serialize o 2 r.client_request_type;
  proxy_id = serialize o 2 r.proxy_id;
  client_id = serialize o 2 r.client_id;
}

pub record LinkRoom : Type 0 where
  pub length : ℕ
  pub client_request_type : ℕ
  pub proxy_id : ℕ
  pub client_id : ℕ
  pub room_id : ℕ

abbrev pub link_room_fields : LinkRoom → List Field
link_room_fields r =
    field 2 r.length
    ∷ field 2 r.client_request_type
    ∷ field 2 r.proxy_id
    ∷ field 2 r.client_id
    ∷ field 4 r.room_id
    ∷ []

unfoldable pub serialize_link_room : NetOrder → LinkRoom → LinkRoom
serialize_link_room o r = record {
  length = length_field o 12;
  client_request_type = serialize o 2 r.client_request_type;
  proxy_id = serialize o 2 r.proxy_id;
  client_id = serialize o 2 r.client_id;
  room_id = serialize o 4 r.room_id;
}

pub record LinkRoomUser : Type 0 where
  pub length : ℕ
  pub client_request_type : ℕ
  pub proxy_id : ℕ
  pub client_id : ℕ
  pub room_id : ℕ
  pub user_id : ℕ
  pub link_media_mask : ℕ

abbrev pub link_room_user_fields : LinkRoomUser → List Field
link_room_user_fields r =
    field 2 r.length
    ∷ field 2 r.client_request_type
    ∷ field 2 r.proxy_id
    ∷ field 2 r.client_id
    ∷ field 4 r.room_id
    ∷ field 8 r.user_id
    ∷ field 1 r.link_media_mask
    ∷ []

unfoldable pub serialize_link_room_user : NetOrder → LinkRoomUser → LinkRoomUser
serialize_link_room_user o r = record {
  length = length_field o 21;
  client_request_type = serialize o 2 r.client_request_type;
  proxy_id = serialize o 2 r.proxy_id;
  client_id = serialize o 2 r.client_id;
  room_id = serialize o 4 r.room_id;
  user_id = serialize o 8 r.user_id;
  link_media_mask = serialize o 1 r.link_media_mask;
}

pub record UnlinkRoomUser : Type 0 where
  pub length : ℕ
  pub client_request_type : ℕ
  pub proxy_id : ℕ
  pub client_id : ℕ
  pub room_id : ℕ
  pub user_id : ℕ
  pub unlink_media_mask : ℕ

abbrev pub unlink_room_user_fields : UnlinkRoomUser → List Field
unlink_room_user_fields r =
    field 2 r.length
    ∷ field 2 r.client_request_type
    ∷ field 2 r.proxy_id
    ∷ field 2 r.client_id
    ∷ field 4 r.room_id
    ∷ field 8 r.user_id
    ∷ field 1 r.unlink_media_mask
    ∷ []

unfoldable pub serialize_unlink_room_user : NetOrder → UnlinkRoomUser → UnlinkRoomUser
serialize_unlink_room_user o r = record {
  length = length_field o 21;
  client_request_type = serialize o 2 r.client_request_type;
  proxy_id = serialize o 2 r.proxy_id;
  client_id = serialize o 2 r.client_id;
  room_id = serialize o 4 r.room_id;
  user_id = serialize o 8 r.user_id;
  unlink_media_mask = serialize o 1 r.unlink_media_mask;
}

pub record KeepAlive : Type 0 where
  pub length : ℕ
  pub client_request_type : ℕ
  pub proxy_id : ℕ
  pub client_id : ℕ

abbrev pub keep_alive_fields : KeepAlive → List Field
keep_alive_fields r =
    field 2 r.length ∷ field 2 r.client_request_type ∷ field 2 r.proxy_id ∷ field 2 r.client_id ∷ []

unfoldable pub serialize_keep_alive : NetOrder → KeepAlive → KeepAlive
serialize_keep_alive o r = record {
  length = length_field o 8;
  client_request_type = serialize o 2 r.client_request_type;
  proxy_id = serialize o 2 r.proxy_id;
  client_id = serialize o 2 r.client_id;
}

pub record Nat : Type 0 where
  pub client_request_type : ℕ
  pub proxy_id : ℕ
  pub room_id : ℕ
  pub client_id : ℕ

abbrev pub nat_fields : Nat → List Field
nat_fields r =
    field 2 r.client_request_type
    ∷ field 2 r.proxy_id
    ∷ field 4 r.room_id
    ∷ field 2 r.client_id
    ∷ []

unfoldable pub serialize_nat : NetOrder → Nat → Nat
serialize_nat o r = record {
  client_request_type = serialize o 2 r.client_request_type;
  proxy_id = serialize o 2 r.proxy_id;
  room_id = serialize o 4 r.room_id;
  client_id = serialize o 2 r.client_id;
}

-- The requests that go to a proxy over TCP.
pub data Request : Type 0 where
  login : Login → Request
  logout : Logout → Request
  link_room : LinkRoom → Request
  unlink_room : LinkRoom → Request
  link_room_user : LinkRoomUser → Request
  unlink_room_user : UnlinkRoomUser → Request
  keep_alive : KeepAlive → Request

-- What `SendTCPPacket(&request, &sndlen)` finds at the address, after `request.Serialize()`.
unfoldable pub request_bytes : NetOrder → Request → List ℕ
unfolding serialize_login serialize_logout serialize_link_room serialize_link_room_user
    serialize_unlink_room_user serialize_keep_alive
request_bytes o (login r) = memory (login_fields (serialize_login o r))
request_bytes o (logout r) = memory (logout_fields (serialize_logout o r))
request_bytes o (link_room r) = memory (link_room_fields (serialize_link_room o r))
request_bytes o (unlink_room r) = memory (link_room_fields (serialize_link_room o r))
request_bytes o (link_room_user r) = memory (link_room_user_fields (serialize_link_room_user o r))
request_bytes o (unlink_room_user r) =
    memory (unlink_room_user_fields (serialize_unlink_room_user o r))
request_bytes o (keep_alive r) = memory (keep_alive_fields (serialize_keep_alive o r))

-- And for the datagram of the NAT request.
unfoldable pub nat_bytes : NetOrder → Nat → List ℕ
unfolding serialize_nat
nat_bytes o r = memory (nat_fields (serialize_nat o r))
