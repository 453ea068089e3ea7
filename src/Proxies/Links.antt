-- ===== src/Proxies/Links.antt =====
-- LinkRoom of a proxy: what one call does (Monitor/Monitor/AvsProxy.cpp).
use real_time_monitor_agent.Base.{ℕ, ◌≡◌, List, [], ◌∷◌, ◌++◌, none, some, false, arith}
use real_time_monitor_agent.Base.OrdMap.{lookup, insert}
use real_time_monitor_agent.Wire.Requests.{link_room}
use real_time_monitor_agent.Store.{
  Store, TitleRoom, AvsProxy, online, Sent, tcp, ok, fault, update, PjStatus, success, eexists,
}
use real_time_monitor_agent.Rooms.{on_create, rank32}
use real_time_monitor_agent.Proxies.{add_room, proxy_link_room, send, status_eq, type_link_room}

-- The request to link a room.
abbrev pub link_packet : ℕ → ℕ → ℕ → ℕ → Sent
link_packet a proxy_id client_id room_id = tcp a (
    link_room (record {
      length = 0;
      client_request_type = type_link_room;
      proxy_id = proxy_id;
      client_id = client_id;
      room_id = room_id;
    }))

-- The store behind a link: the room is in the map and belongs to the proxy, and the request is sent.
abbrev pub with_link : ℕ → ℕ → AvsProxy → TitleRoom → Store → Store
with_link a r proxy room st = record st {
  proxies =
      update st.proxies a (some (record proxy { rooms = insert rank32 room.id r proxy.rooms }));
  rooms = update st.rooms r (some (record room { proxy = some a }));
  sent = st.sent ++ (link_packet a proxy.id st.config.client_id room.id ∷ []);
}

module _ (net : List Sent → Sent → PjStatus) where
  pub link_room-online :
      (a r : ℕ) (proxy : AvsProxy) (room : TitleRoom) (st : Store)
      → st.proxies a ≡ some proxy
      → proxy.status ≡ online
      → st.rooms r ≡ some room
      → proxy_link_room net a r st ≡ elim (lookup room.id proxy.rooms) [
        | some q ↦ ok eexists st
        | none ↦
            ok
              (net st.sent (link_packet a proxy.id st.config.client_id room.id))
              (with_link a r proxy room st)
      ]
  unfolding proxy_link_room add_room on_create send status_eq
  link_room-online a r proxy room st h e hr = ground arith

  pub link_room-waits :
      (a r : ℕ) (proxy : AvsProxy) (st : Store)
      → st.proxies a ≡ some proxy
      → status_eq proxy.status online ≡ false
      → proxy_link_room net a r st
        ≡ ok success (record st {
          proxies =
              update st.proxies a
                (some (record proxy { waits_rooms = proxy.waits_rooms ++ (r ∷ []) }));
        })
  unfolding proxy_link_room
  link_room-waits a r proxy st h e = ground arith

  pub link_room-new :
      (a r : ℕ) (proxy : AvsProxy) (room : TitleRoom) (st : Store)
      → st.proxies a ≡ some proxy
      → proxy.status ≡ online
      → st.rooms r ≡ some room
      → lookup room.id proxy.rooms ≡ none
      → proxy_link_room net a r st
        ≡ ok
            (net st.sent (link_packet a proxy.id st.config.client_id room.id))
            (with_link a r proxy room st)
  link_room-new a r proxy room st h e hr new =
      ground (arith, link_room-online a r proxy room st h e hr)

  pub link_room-known :
      (a r q : ℕ) (proxy : AvsProxy) (room : TitleRoom) (st : Store)
      → st.proxies a ≡ some proxy
      → proxy.status ≡ online
      → st.rooms r ≡ some room
      → lookup room.id proxy.rooms ≡ some q
      → proxy_link_room net a r st ≡ ok eexists st
  link_room-known a r q proxy room st h e hr known =
      ground (arith, link_room-online a r proxy room st h e hr)

  -- A pointer to no proxy, and one to no room.
  pub link_room-no_proxy :
      (a r : ℕ) (st : Store) → st.proxies a ≡ none → proxy_link_room net a r st ≡ fault
  unfolding proxy_link_room
  link_room-no_proxy a r st h = ground arith

  pub link_room-no_room :
      (a r : ℕ) (proxy : AvsProxy) (st : Store)
      → st.proxies a ≡ some proxy
      → proxy.status ≡ online
      → st.rooms r ≡ none
      → proxy_link_room net a r st ≡ fault
  unfolding proxy_link_room status_eq
  link_room-no_room a r proxy st h e hr = ground arith
