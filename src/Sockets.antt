-- ===== src/Sockets.antt =====
-- The sockets that the program opens (Monitor/Monitor/Com.cpp), and the datagram that RTPSession sends
-- (Monitor/Monitor/RTPSession.cpp). What the network library answers is an argument.
pub mod Opening
mod Examples
use real_time_monitor_agent.Base.{
  ℕ, ◌+◌, ◌-◌, ◌≡◌, List, [], ◌∷◌, ◌++◌, Option, none, some, Bool, true, false, ◌==◌, ltb, leb,
  length, if◌then◌else◌,
}
use real_time_monitor_agent.Store.{PjStatus, success, einval, failed}

-- The answers of one call: those of pj_sock_socket with the socket, pj_sock_setsockopt,
-- pj_sockaddr_in_init, pj_sock_bind and pj_sock_listen, and whether ioctlsocket is not 0.
pub record Answers : Type 0 where
  pub created : PjStatus
  pub sock : ℕ
  pub option : PjStatus
  pub address : PjStatus
  pub bound : PjStatus
  pub listening : PjStatus
  pub ioctl : Bool

-- The answer of pj_sock_select, with what PJ_FD_ISSET says of the two sets.
pub data Selected : Type 0 where
  error timeout : Selected
  ready : (rset wset : Bool) → Selected

-- The status that is returned and the sockets that are open.
pub record Opened : Type 0 where
  pub status : PjStatus
  pub open_socks : List ℕ

-- `RETURN_VAL_IF_FAIL( status == PJ_SUCCESS, (pj_sock_close(sock), status) )` before the rest, where
-- `left` are the sockets that were open before.
abbrev pub or_close : PjStatus → List ℕ → Opened → Opened
or_close success left rest = rest
or_close s left rest = record { status = s; open_socks = left }

-- The same with `return -1`.
abbrev pub unless_ioctl : Bool → List ℕ → Opened → Opened
unless_ioctl bad left rest = if bad then record { status = failed; open_socks = left } else rest

unfoldable pub open_tcp_serverport : Answers → List ℕ → Opened
open_tcp_serverport a left = or_close a.created left (
    or_close a.option left (
      or_close a.address left (
        or_close a.bound left (
          or_close a.listening left (
            unless_ioctl a.ioctl left
              (record { status = a.listening; open_socks = a.sock ∷ left }))))))

-- The switch on `selret`. The status of pj_sock_connect is not looked at.
unfoldable pub on_select : Selected → PjStatus
on_select error = einval
on_select timeout = failed
on_select (ready rset wset) = if rset then success else if wset then success else einval

unfoldable pub open_tcp_clientport : Answers → Selected → List ℕ → Opened
unfolding on_select
open_tcp_clientport a selected left = or_close a.created left (
    or_close a.address left (
      unless_ioctl a.ioctl left
        (record { status = on_select selected; open_socks = a.sock ∷ left })))

-- `given`: `ip != nullptr && port > 0`.
unfoldable pub open_udp_transport : Bool → Answers → List ℕ → Opened
open_udp_transport given a left =
    let rest = λ (status : PjStatus).
      unless_ioctl a.ioctl left (record { status = status; open_socks = a.sock ∷ left }) in
    or_close a.created left (
      or_close a.option left (
        if given
        then or_close a.address left (or_close a.bound left (rest a.bound))
        else rest a.option))

-- `MAX_UDP_DATA_SIZE`: 1500 - 20 - 8.
abbrev pub max_udp_data_size : ℕ
max_udp_data_size = 1472

-- `overflow`: pj_memcpy writes behind the array `packet`.
pub data Datagram : Type 0 where
  refused : PjStatus → Datagram
  overflow : Datagram
  sends : List ℕ → Datagram

-- pj_memcpy of `bytes` to `packet + at`, where `packet` holds `packet` and has room for `room` bytes.
abbrev append_within : ℕ → List ℕ → List ℕ → Option (List ℕ)
append_within room packet bytes =
    if leb (length packet + length bytes) room then some (packet ++ bytes) else none

-- `encoded` and `header` are what pjmedia_rtp_encode_rtp answers, `address` what pj_sockaddr_in_init
-- does.
unfoldable pub send_rtp_packet : PjStatus → List ℕ → PjStatus → List ℕ → Datagram
send_rtp_packet encoded header address payload =
    if leb (length payload) max_udp_data_size
    then elim encoded [
      | success ↦ elim (append_within max_udp_data_size [] header) [
        | none ↦ overflow
        | some packet ↦ elim (append_within max_udp_data_size packet payload) [
          | none ↦ overflow
          | some packet' ↦ elim address [ success ↦ sends packet' | s ↦ refused s ]
        ]
      ]
      | s ↦ refused s
    ]
    else refused einval
