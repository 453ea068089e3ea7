-- ===== src/Wire/Parameters.antt =====
-- The parameters of the messages: the constructors of Scene/Parameter.h and of the *Scene.cpp files,
-- which read their fields from the storage. That of the rooms information is in RoomsInfo.
use real_time_monitor_agent.Base.{ℕ}
use real_time_monitor_agent.Wire.Order.{NetOrder}
use real_time_monitor_agent.Wire.Cursor.{Parser, pure, ◌>>=◌, ntoh_assign}

pub record TcpParameter : Type 0 where
  pub length : ℕ
  pub client_request_type : ℕ
  pub proxy_id : ℕ
  pub client_id : ℕ

pub record UdpParameter : Type 0 where
  pub avs_request_type : ℕ
  pub proxy_id : ℕ
  pub room_id : ℕ

pub record AddUserParameter : Type 0 where
  pub tcp : TcpParameter
  pub room_id : ℕ
  pub user_id : ℕ
  pub mic_id : ℕ

pub record DelUserParameter : Type 0 where
  pub tcp : TcpParameter
  pub room_id : ℕ
  pub user_id : ℕ

pub record ModMediaParameter : Type 0 where
  pub tcp : TcpParameter
  pub room_id : ℕ
  pub user_id : ℕ
  pub audio_ssrc : ℕ
  pub video_ssrc : ℕ

pub record NatParameter : Type 0 where
  pub udp : UdpParameter
  pub client_id : ℕ

module _ (o : NetOrder) where
  unfoldable pub tcp_parameter : Parser TcpParameter
  tcp_parameter = do
    length ← ntoh_assign o 2
    client_request_type ← ntoh_assign o 2
    proxy_id ← ntoh_assign o 2
    client_id ← ntoh_assign o 2
    pure (record {
      length = length;
      client_request_type = client_request_type;
      proxy_id = proxy_id;
      client_id = client_id;
    })

  unfoldable pub udp_parameter : Parser UdpParameter
  udp_parameter = do
    avs_request_type ← ntoh_assign o 2
    proxy_id ← ntoh_assign o 2
    room_id ← ntoh_assign o 4
    pure (record { avs_request_type = avs_request_type; proxy_id = proxy_id; room_id = room_id })

  unfoldable pub add_user_parameter : Parser AddUserParameter
  add_user_parameter = do
    tcp ← tcp_parameter
    room_id ← ntoh_assign o 4
    user_id ← ntoh_assign o 8
    mic_id ← ntoh_assign o 4
    pure (record { tcp = tcp; room_id = room_id; user_id = user_id; mic_id = mic_id })

  unfoldable pub del_user_parameter : Parser DelUserParameter
  del_user_parameter = do
    tcp ← tcp_parameter
    room_id ← ntoh_assign o 4
    user_id ← ntoh_assign o 8
    pure (record { tcp = tcp; room_id = room_id; user_id = user_id })

  unfoldable pub mod_media_parameter : Parser ModMediaParameter
  mod_media_parameter = do
    tcp ← tcp_parameter
    room_id ← ntoh_assign o 4
    user_id ← ntoh_assign o 8
    audio_ssrc ← ntoh_assign o 4
    video_ssrc ← ntoh_assign o 4
    pure (record {
      tcp = tcp;
      room_id = room_id;
      user_id = user_id;
      audio_ssrc = audio_ssrc;
      video_ssrc = video_ssrc;
    })

  -- ResLoginParameter and KeepAliveParameter add no field.
  unfoldable pub res_login_parameter : Parser TcpParameter
  res_login_parameter = tcp_parameter

  unfoldable pub keep_alive_parameter : Parser TcpParameter
  keep_alive_parameter = tcp_parameter

  unfoldable pub nat_parameter : Parser NatParameter
  nat_parameter = do
    udp ← udp_parameter
    client_id ← ntoh_assign o 2
    pure (record { udp = udp; client_id = client_id })
