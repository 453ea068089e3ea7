-- ===== src/Proxies.antt =====
-- The methods of `AvsProxy` (Monitor/Monitor/AvsProxy.cpp).
pub mod Links
pub mod Waiting
pub mod Queue
pub mod Sends
pub mod Login
pub mod Unlink
pub mod Calls
mod Examples
use real_time_monitor_agent.Base.{
  ℕ, zero, suc, ◌+◌, ◌%◌, ◌^◌, List, [], ◌∷◌, ◌++◌, Option, none, some, Bool, true, false, length,
  if◌then◌else◌,
}
use real_time_monitor_agent.Base.OrdMap.{lookup, insert, erase, behind}
use real_time_monitor_agent.Wire.Requests.{
  Request, Nat, login, logout, link_room, unlink_room, link_room_user, unlink_room_user,
}
use real_time_monitor_agent.Store.{
  Store, User, TitleRoom, AvsProxy, AvsProxyStatus, uninit, logining, nating, online, Sent, tcp,
  udp, M, Outcome, ok, deadlock, fault, stuck, pure, ◌>>=◌, ◌>>◌, PjStatus, success, einval,
  eexists, enotfound, user_at, room_at, proxy_at, put_proxy,
}
use real_time_monitor_agent.Rooms.{on_create, on_destory, rank32}

-- The values of the enumerations of command.h.
abbrev pub type_login : ℕ
type_login = 0

abbrev pub type_logout : ℕ
type_logout = 1

abbrev pub type_link_room : ℕ
type_link_room = 2

abbrev pub type_unlink_room : ℕ
type_unlink_room = 3

abbrev pub type_link_room_user : ℕ
type_link_room_user = 4

abbrev pub type_unlink_room_user : ℕ
type_unlink_room_user = 5

abbrev pub type_nat : ℕ
type_nat = 8

abbrev pub media_mask_video : ℕ
media_mask_video = 2

abbrev pub get_store : M Store
get_store st = ok st st

abbrev set_status : ℕ → AvsProxyStatus → M (Unit {0})
set_status a s = do proxy ← proxy_at a; put_proxy a (record proxy { status = s })

unfoldable pub status_eq : AvsProxyStatus → AvsProxyStatus → Bool
status_eq uninit uninit = true
status_eq logining logining = true
status_eq nating nating = true
status_eq online online = true
status_eq _ _ = false

-- `net` is the network: the status of a send, from the packets before and the new one. `sent` lists every
-- packet handed to the network, also those whose send failed.
module _ (net : List Sent → Sent → PjStatus) where
  unfoldable pub send : Sent → M PjStatus
  send x st = ok (net st.sent x) (record st { sent = st.sent ++ (x ∷ []) })

  -- `RETURN_VAL_IF_FAIL(status == PJ_SUCCESS, status)` before the rest.
  abbrev pub on_success : PjStatus → M PjStatus → M PjStatus
  on_success success rest = rest
  on_success s rest = pure s

  unfoldable pub proxy_login : ℕ → M PjStatus
  unfolding send status_eq
  proxy_login a = do
    proxy ← proxy_at a
    st ← get_store
    if status_eq proxy.status uninit
        then (do
          status ← send (
              tcp a (
                login (record {
                  length = 0;
                  client_request_type = type_login;
                  proxy_id = proxy.id;
                  client_id = st.config.client_id;
                  media_ip = st.config.local_ip;
                  media_port = st.config.local_media_port;
                })))
          on_success status do set_status a logining; pure success)
        else pure success

  -- The address of the datagrams is that of the proxy.
  unfoldable pub on_rx_login : ℕ → M PjStatus
  unfolding send status_eq
  on_rx_login a = do
    proxy ← proxy_at a
    st ← get_store
    let nat : Sent = udp a (record {
      client_request_type = type_nat;
      proxy_id = proxy.id;
      room_id = 0;
      client_id = st.config.client_id;
    })
    if status_eq proxy.status logining
        then (do
          status₁ ← send nat
          on_success status₁ do
            status₂ ← send nat
            on_success status₂
                do status₃ ← send nat; on_success status₃ do set_status a nating; pure success)
        else pure success

  unfoldable pub add_room : ℕ → ℕ → ℕ → M PjStatus
  add_room a room_id r = do
    proxy ← proxy_at a
    elim (lookup room_id proxy.rooms) [
      | some q ↦ pure eexists
      | none ↦ do
        put_proxy a (record proxy { rooms = insert rank32 room_id r proxy.rooms })
        on_create r a
        pure success
    ]

  -- With the iterator `proom`.
  unfoldable pub del_room : ℕ → ℕ → ℕ → M (PjStatus × List (ℕ × ℕ))
  del_room a room_id r = do
    proxy ← proxy_at a
    elim (lookup room_id proxy.rooms) [
      | none ↦ pure (enotfound, [])
      | some q ↦ do
        put_proxy a (record proxy { rooms = erase room_id proxy.rooms })
        on_destory r
        pure (success, behind room_id proxy.rooms)
    ]

  unfoldable pub get_room : ℕ → ℕ → M (PjStatus × Option ℕ)
  get_room a room_id = do
    proxy ← proxy_at a
    elim (lookup room_id proxy.rooms) [
      | none ↦ pure (einval, none)
      | some r ↦ pure (success, some r)
    ]

  unfoldable pub get_room_size : ℕ → M ℕ
  get_room_size a = do proxy ← proxy_at a; pure (length proxy.rooms)

  unfoldable pub proxy_link_room : ℕ → ℕ → M PjStatus
  unfolding send status_eq add_room on_create
  proxy_link_room a r = do
    proxy ← proxy_at a
    if status_eq proxy.status online
        then (do
          room ← room_at r
          added ← add_room a room.id r
          elim added [
            | success ↦ do
              st ← get_store
              send (
                  tcp a (
                    link_room (record {
                      length = 0;
                      client_request_type = type_link_room;
                      proxy_id = proxy.id;
                      client_id = st.config.client_id;
                      room_id = room.id;
                    })))
            | _ ↦ pure eexists
          ])
        else (do
          put_proxy a (record proxy { waits_rooms = proxy.waits_rooms ++ (r ∷ []) })
          pure success)

  -- The loop of OnRxNAT over the rooms that wait; the results are not looked at.
  unfoldable pub link_waiting : ℕ → List ℕ → M (Unit {0})
  link_waiting a [] st = ok tt st
  link_waiting a (r ∷ rs) st = (do proxy_link_room a r; link_waiting a rs) st

  unfoldable pub on_rx_nat : ℕ → M PjStatus
  unfolding status_eq
  on_rx_nat a = do
    proxy ← proxy_at a
    if status_eq proxy.status nating
        then (do
          set_status a online
          link_waiting a proxy.waits_rooms
          proxy' ← proxy_at a
          put_proxy a (record proxy' { waits_rooms = [] })
          pure success)
        else pure success

  unfoldable pub proxy_unlink_room : ℕ → ℕ → M PjStatus
  unfolding send
  proxy_unlink_room a r = do
    room ← room_at r
    (deleted, it) ← del_room a room.id r
    elim deleted [
      | success ↦ do
        proxy ← proxy_at a
        room' ← room_at r
        st ← get_store
        send (
            tcp a (
              unlink_room (record {
                length = 0;
                client_request_type = type_unlink_room;
                proxy_id = proxy.id;
                client_id = st.config.client_id;
                room_id = room'.id;
              })))
      | _ ↦ pure enotfound
    ]

  -- Both take `user->title_room_->id_`.
  unfoldable pub proxy_link_room_user : ℕ → Option ℕ → M PjStatus
  unfolding send
  proxy_link_room_user a none = pure einval
  proxy_link_room_user a (some p) = do
    proxy ← proxy_at a
    u ← user_at p
    elim u.title_room [
      | none ↦ (λ st. fault)
      | some r ↦ do
        room ← room_at r
        st ← get_store
        send (
            tcp a (
              link_room_user (record {
                length = 0;
                client_request_type = type_link_room_user;
                proxy_id = proxy.id;
                client_id = st.config.client_id;
                room_id = room.id;
                user_id = u.user_id;
                link_media_mask = media_mask_video;
              })))
    ]

  unfoldable pub proxy_unlink_room_user : ℕ → Option ℕ → M PjStatus
  unfolding send
  proxy_unlink_room_user a none = pure einval
  proxy_unlink_room_user a (some p) = do
    proxy ← proxy_at a
    u ← user_at p
    elim u.title_room [
      | none ↦ (λ st. fault)
      | some r ↦ do
        room ← room_at r
        st ← get_store
        send (
            tcp a (
              unlink_room_user (record {
                length = 0;
                client_request_type = type_unlink_room_user;
                proxy_id = proxy.id;
                client_id = st.config.client_id;
                room_id = room.id;
                user_id = u.user_id;
                unlink_media_mask = media_mask_video;
              })))
    ]

  -- The loop of Destory over the rooms; `ip_` and `pfunction_` are freed before it.
  unfoldable pub destory_rooms : ℕ → ℕ → List (ℕ × ℕ) → M (Unit {0})
  destory_rooms fuel a [] st = ok tt st
  destory_rooms zero a ((k, r) ∷ it) st = stuck
  destory_rooms (suc fuel) a ((k, r) ∷ it) st =
      (do room ← room_at r; (deleted, it') ← del_room a room.id r; destory_rooms fuel a it') st

  unfoldable pub proxy_destory : ℕ → M (Unit {0})
  proxy_destory a = do proxy ← proxy_at a; destory_rooms (length proxy.rooms) a proxy.rooms

  unfoldable pub proxy_logout : ℕ → M PjStatus
  unfolding send proxy_destory
  proxy_logout a = do
    set_status a uninit
    proxy_destory a
    proxy ← proxy_at a
    st ← get_store
    send (
        tcp a (
          logout (record {
            length = 0;
            client_request_type = type_logout;
            proxy_id = proxy.id;
            client_id = st.config.client_id;
          })))
