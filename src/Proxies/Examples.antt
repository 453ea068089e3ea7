-- ===== src/Proxies/Examples.antt =====
-- Runs of the methods of a proxy.
use real_time_monitor_agent.Base.{ℕ, ◌≡◌, refl, List, [], ◌∷◌, ◌++◌, map, none, some, false, arith}
use real_time_monitor_agent.Base.OrdMap.{lookup}
use real_time_monitor_agent.Store.{
  Store, AvsProxy, uninit, nating, online, Sent, Outcome, ok, deadlock, fault, stuck, PjStatus,
  success, einval, update,
}
use real_time_monitor_agent.Store.Reaches.{Reaches, start, call}
use real_time_monitor_agent.Proxies.{
  on_rx_nat, proxy_login, proxy_unlink_room, get_room, send, status_eq,
}
use real_time_monitor_agent.Proxies.Links.{link_packet}
use real_time_monitor_agent.Proxies.Waiting.{new_links, with_rooms, times, once, on_rx_nat-links}
use real_time_monitor_agent.Proxies.Unlink.{unlink_packet, unlink_room-removes}
use real_time_monitor_agent.Proxies.Sends.{Handshake, Asked}
use real_time_monitor_agent.Proxies.Calls.{logs_in, perform, Reaches-Handshake}
use real_time_monitor_agent.Rooms.Examples.{busy_store, busy_store-Housing, busy_room, linked_proxy}
use real_time_monitor_agent.Wall.Invariant.{Sound}

abbrev perfect_net : List Sent → Sent → PjStatus
perfect_net sent x = success

abbrev nating_proxy : AvsProxy
nating_proxy = record { status = nating; id = 4; rooms = []; waits_rooms = 0 ∷ (0 ∷ []) }

abbrev nating_store : Store
nating_store = record busy_store { proxies = update (λ q. none) 1 (some nating_proxy) }

-- The one room waits twice and is asked for once.
on_rx_nat-links_example :
    (st' : Store) × (on_rx_nat perfect_net 1 nating_store ≡ ok success st')
    × (st'.proxies 1
        ≡ some (record {
          status = online;
          id = 4;
          rooms = with_rooms (λ r. 9) [] (0 ∷ (0 ∷ []));
          waits_rooms = [];
        }))
    × (st'.sent ≡ [] ++ map (λ r. link_packet 1 4 2 9) (new_links (λ r. 9) [] (0 ∷ (0 ∷ []))))
    × ((id : ℕ)
        → times (λ r. 9) id (new_links (λ r. 9) [] (0 ∷ (0 ∷ [])))
          ≡ once (λ r. 9) id [] (0 ∷ (0 ∷ [])))
    × (st'.users ≡ nating_store.users)
on_rx_nat-links_example =
    on_rx_nat-links (λ r. 9) 1 perfect_net nating_proxy nating_store refl refl
      ((busy_room, refl, refl), ((busy_room, refl, refl), tt))

unlink_room-removes_example :
    (st' : Store) × (proxy_unlink_room perfect_net 0 0 busy_store ≡ ok success st')
    × (get_room perfect_net 0 9 st' ≡ ok (einval, none) st')
    × (st'.sent ≡ unlink_packet 0 4 2 9 ∷ [])
    × (st'.rooms 0 ≡ some (record { id = 9; proxy = none; users = []; locked = false }))
    × ((k p : ℕ) → lookup k busy_room.users ≡ some p → st'.users p ≡ none)
    × Sound st'
unlink_room-removes_example =
    unlink_room-removes perfect_net 0 0 0 linked_proxy busy_room busy_store busy_store-Housing refl
      (unfold lookup in refl, tt) (unfold lookup in refl)

-- A proxy that is not logged in, and its login.
abbrev idle_store : Store
idle_store = record busy_store {
  proxies =
      update (λ q. none) 1
        (some (record { status = uninit; id = 4; rooms = []; waits_rooms = [] }));
}

idle_store-Handshake : Handshake perfect_net idle_store
idle_store-Handshake = record { asked = λ a proxy h. uninit_asked a proxy (ground arith) }
  where
    uninit_asked :
        (a : ℕ) (proxy : AvsProxy) → proxy.status ≡ uninit → Asked perfect_net a proxy.status []
    uninit_asked a proxy e = rw e tt

abbrev store_of : Outcome (Unit {0}) → Store
store_of o = elim o [
  | ok a st ↦ st
  | deadlock ↦ busy_store
  | fault ↦ busy_store
  | stuck ↦ busy_store
]

abbrev logging_in : Store
unfolding perform proxy_login send status_eq
logging_in = store_of (perform perfect_net (logs_in 1) idle_store)

login_run : Reaches (perform perfect_net) idle_store logging_in
unfolding logging_in perform proxy_login send status_eq
login_run = call (logs_in 1) idle_store logging_in start refl

Reaches-Handshake_example : Handshake perfect_net logging_in
Reaches-Handshake_example =
    Reaches-Handshake perfect_net idle_store logging_in idle_store-Handshake login_run
