-- ===== src/Proxies/Unlink.antt =====
-- UnlinkRoom of a proxy, with the destruction of the room (Monitor/Monitor/AvsProxy.cpp).
use real_time_monitor_agent.Base.{ℕ, ◌≡◌, List, [], ◌∷◌, ◌++◌, none, some, false, arith}
use real_time_monitor_agent.Base.OrdMap.{lookup, erase, IsMap, lookup-erase}
use real_time_monitor_agent.Wire.Requests.{unlink_room}
use real_time_monitor_agent.Store.{
  Store, TitleRoom, AvsProxy, Sent, tcp, ok, update, PjStatus, einval,
}
use real_time_monitor_agent.Rooms.{on_destory}
use real_time_monitor_agent.Rooms.Membership.{Housing}
use real_time_monitor_agent.Rooms.Destory.{on_destory-empties}
use real_time_monitor_agent.Wall.Invariant.{Sound}
use real_time_monitor_agent.Proxies.{del_room, get_room, proxy_unlink_room, send, type_unlink_room}

abbrev pub unlink_packet : ℕ → ℕ → ℕ → ℕ → Sent
unlink_packet a proxy_id client_id room_id = tcp a (
    unlink_room (record {
      length = 0;
      client_request_type = type_unlink_room;
      proxy_id = proxy_id;
      client_id = client_id;
      room_id = room_id;
    }))

-- The proxy's store once the entry of the room is erased.
abbrev unmapped : ℕ → ℕ → AvsProxy → Store → Store
unmapped a room_id proxy st = record st {
  proxies = update st.proxies a (some (record proxy { rooms = erase room_id proxy.rooms }));
}

module _ (net : List Sent → Sent → PjStatus) (a r q : ℕ) (proxy : AvsProxy) (room : TitleRoom) where
  unlink_room-runs :
      (st st₁ : Store) (room' : TitleRoom)
      → st.proxies a ≡ some proxy
      → st.rooms r ≡ some room
      → lookup room.id proxy.rooms ≡ some q
      → on_destory r (unmapped a room.id proxy st) ≡ ok tt st₁
      → st₁.rooms r ≡ some room'
      → st₁.proxies ≡ (unmapped a room.id proxy st).proxies
      → proxy_unlink_room net a r st
        ≡ ok (net st₁.sent (unlink_packet a proxy.id st₁.config.client_id room'.id)) (record st₁ {
          sent = st₁.sent ++ (unlink_packet a proxy.id st₁.config.client_id room'.id ∷ []);
        })
  unfolding proxy_unlink_room del_room send
  unlink_room-runs st st₁ room' h hr found e hr' kept = ground (arith, kept, e)

  -- UnlinkRoom of a room that the proxy has returns the status of its one send: the number of the
  -- room is no longer known to the proxy, every user of the room is deleted and off its screen, the
  -- room is empty and belongs to no proxy, and the request to unlink it is the one packet sent.
  pub unlink_room-removes :
      (st : Store)
      → Housing r room st
      → st.proxies a ≡ some proxy
      → IsMap proxy.rooms
      → lookup room.id proxy.rooms ≡ some q
      → (st' : Store) × (proxy_unlink_room net a r st
          ≡ ok (net st.sent (unlink_packet a proxy.id st.config.client_id room.id)) st')
        × (get_room net a room.id st' ≡ ok (einval, none) st')
        × (st'.sent ≡ st.sent ++ (unlink_packet a proxy.id st.config.client_id room.id ∷ []))
        × (st'.rooms r ≡ some (record { id = room.id; proxy = none; users = []; locked = false }))
        × ((k p : ℕ) → lookup k room.users ≡ some p → st'.users p ≡ none)
        × Sound st'
  unfolding get_room
  unlink_room-removes st v h keyed found =
      let before : Housing r room (unmapped a room.id proxy st) = record {
        sound = record { linked = v.sound.linked; free = v.sound.free; housed = v.sound.housed };
        here = v.here;
        unlocked = v.unlocked;
        keyed = v.keyed;
        lives = v.lives;
      } in
      let (st₁, e, sound, empty, gone, stays, others, sent, proxies, config) =
        on_destory-empties r room (unmapped a room.id proxy st) before in
      (
        record st₁ {
          sent = st₁.sent ++ (unlink_packet a proxy.id st₁.config.client_id room.id ∷ []);
        },
        ground (
          arith,
          unlink_room-runs st st₁
              (record { id = room.id; proxy = none; users = []; locked = false }) h v.here found e
              empty proxies,
          sent,
          config,
        ),
        ground (arith, proxies, lookup-erase room.id room.id proxy.rooms keyed),
        ground (arith, sent, config),
        empty,
        gone,
        record { linked = sound.linked; free = sound.free; housed = sound.housed },
      )
