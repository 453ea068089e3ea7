-- ===== src/Connections/Examples.antt =====
-- A proxy that is connected, one whose login fails, and one that is replaced.
use real_time_monitor_agent.Base.{ℕ, ◌≡◌, refl, [], ◌∷◌, ◌++◌, none, some, true, false, arith}
use real_time_monitor_agent.Base.OrdMap.{lookup}
use real_time_monitor_agent.Store.{AvsProxy, uninit, logining, online, success, failed, update}
use real_time_monitor_agent.Rooms.Examples.{busy_store}
use real_time_monitor_agent.Sockets.{Answers, ready, open_tcp_clientport}
use real_time_monitor_agent.Connections.{
  null, live, conn_proxy, disc_proxy, ProxyTable, returns, crashed, ◌>>◌,
}
use real_time_monitor_agent.Connections.Events.{
  link_room, event_on_pipe, event_on_tcp_closed, disc_proxy_scene,
}
use real_time_monitor_agent.Connections.Linking.{
  login_packet, link_room-connects, link_room-strands,
}
use real_time_monitor_agent.Connections.Evicting.{closed-evicts}

abbrev pub answers : Answers
answers = record {
  created = success;
  sock = 5;
  option = success;
  address = success;
  bound = success;
  listening = success;
  ioctl = false;
}

abbrev pub no_links : ProxyTable
no_links = record {
  store = busy_store;
  linked_proxys = [];
  links = λ a. none;
  open_socks = [];
  pipe = [];
  scenes = [];
  next_proxy = 1;
}

link_room-connects_example :
    (t' : ProxyTable) × (link_room (λ sent x. success) answers (ready false true) 8 0 no_links
      ≡ returns success t')
    × (lookup 8 t'.linked_proxys ≡ some 1)
    × (t'.store.proxies 1
        ≡ some (record { status = logining; id = 8; rooms = []; waits_rooms = 0 ∷ [] }))
    × (t'.links 1 ≡ some (record { sock = some 5; tcp_ev = null }))
    × (t'.pipe ≡ [] ++ (conn_proxy 1 ∷ []))
    × (t'.store.sent ≡ [] ++ (login_packet 1 8 busy_store ∷ []))
link_room-connects_example =
    link_room-connects (λ sent x. success) answers (ready false true) 8 0 no_links
      (unfold lookup in refl) (unfold open_tcp_clientport in refl) refl

link_room-strands_example :
    (t' : ProxyTable) × (link_room (λ sent x. failed) answers (ready false true) 8 0 no_links
      ≡ returns failed t')
    × ((r' : ℕ)
        → (t'' : ProxyTable) × (link_room (λ sent x. failed) answers (ready false true) 8 r' t'
            ≡ returns success t'')
          × (t''.store.sent ≡ t'.store.sent)
          × (t''.store.proxies 1
              ≡ some (record { status = uninit; id = 8; rooms = []; waits_rooms = r' ∷ [] })))
link_room-strands_example =
    link_room-strands (λ sent x. failed) answers (ready false true) 8 0 failed no_links
      (unfold lookup in refl) (unfold open_tcp_clientport in refl) refl (cc)

abbrev leaver : AvsProxy
leaver = record { status = online; id = 8; rooms = []; waits_rooms = [] }

abbrev replaced : ProxyTable
replaced = record no_links {
  store = record busy_store {
    proxies =
        update (update (λ a. none) 1 (some leaver)) 2 (some (record leaver { status = uninit }));
  };
  linked_proxys = (8, 2) ∷ [];
  links =
      update (update (λ a. none) 1 (some (record { sock = some 5; tcp_ev = live }))) 2
        (some (record { sock = some 6; tcp_ev = null }));
  open_socks = 6 ∷ (5 ∷ []);
  pipe = disc_proxy 1 ∷ (conn_proxy 2 ∷ []);
  next_proxy = 3;
}

closed-evicts_example :
    (t' t'' : ProxyTable) × (event_on_tcp_closed 1 replaced ≡ returns success t')
    × ((do event_on_pipe true true; event_on_pipe true true; event_on_pipe true true) t'
        ≡ returns (some success) t'')
    × (t''.links 2 ≡ some (record { sock = some 6; tcp_ev = live }))
    × (lookup 8 t''.linked_proxys ≡ none)
    × (t''.scenes ≡ 1 ∷ (1 ∷ []))
    × ((do disc_proxy_scene (λ sent x. success); disc_proxy_scene (λ sent x. success)) t''
        ≡ crashed)
closed-evicts_example =
    closed-evicts (λ sent x. success) 1 2 5 6 leaver replaced
      (record {
        here = refl;
        no_rooms = refl;
        registered = refl;
        waiting = refl;
        taken = unfold lookup in refl;
        keyed = (unfold lookup in refl, tt);
        leaving = refl;
        no_scenes = refl;
      })
      (omega arith)
