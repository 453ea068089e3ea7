-- ===== src/Connections/Events.antt =====
-- What comes through the pipe, closed sockets, and the linking of rooms (Monitor/Monitor/ScreenMgr.cpp,
-- with DiscProxyScene.cpp).
use real_time_monitor_agent.Base.{
  ℕ, List, [], ◌∷◌, ◌++◌, Option, none, some, Bool, false, ◌==◌, ltb, if◌then◌else◌,
}
use real_time_monitor_agent.Store.{Sent, PjStatus, success, einval, eexists, update, room_at}
use real_time_monitor_agent.Proxies.{
  proxy_login, proxy_link_room, proxy_unlink_room, proxy_destory, get_room_size,
}
use real_time_monitor_agent.Sockets.{Answers, Selected, open_tcp_clientport}
use real_time_monitor_agent.Reply.{
  ProxyAddress, Memory, parsed, overrun, undefined, parse_http_response,
}
use real_time_monitor_agent.Connections.{
  null, live, dangling, Piped, conn_proxy, disc_proxy, ProxyTable, remove, returns, crashed, C,
  ◌>>=◌, ◌>>◌, return, on_store, link_behind, after_success, find_proxy, add_proxy, del_proxy,
}

-- The `param` of OnLinkRoom before the response is read: 100, "192.168.6.40", 12000 and 13000.
abbrev pub default_param : ProxyAddress
default_param = record {
  proxy_id = 100;
  proxy_ip = 49 ∷ (57 ∷ (50 ∷ (46 ∷ (49 ∷ (54 ∷ (56 ∷ (46 ∷ (54 ∷ (46 ∷ (52 ∷ (48 ∷ [])))))))))));
  proxy_tcp_port = 12000;
  proxy_udp_port = 13000;
}

-- pj_sock_close.
abbrev pub close_sock : Option ℕ → List ℕ → List ℕ
close_sock none socks = socks
close_sock (some s) socks = remove s socks

-- `event_new` and `event_add` answer `made` and `added`.
unfoldable pub conn_proxy_step : Bool → Bool → ℕ → C PjStatus
conn_proxy_step made added a = do
  link ← link_behind a
  if made
      then (λ t.
          returns (if added then success else einval)
            (record t { links = update t.links a (some (record link { tcp_ev = live })) }))
      else return einval

-- The socket is closed if it is positive, the event freed if it is not null; neither member is reset.
unfoldable pub disc_proxy_step : ℕ → C PjStatus
disc_proxy_step a = do
  link ← link_behind a
  (λ t.
      let socks : List ℕ = elim link.sock [
        | none ↦ t.open_socks
        | some s ↦ if ltb 0 s then remove s t.open_socks else t.open_socks
      ] in
      let freed : ProxyTable = record t {
        open_socks = socks;
        links = update t.links a (some (record link { tcp_ev = dangling }));
        scenes = t.scenes ++ (a ∷ []);
      } in
      elim link.tcp_ev [
        | null ↦ returns success (record freed { links = t.links })
        | live ↦ returns success freed
        | dangling ↦ crashed
      ])

-- The call of a function that came through the pipe.
unfoldable pub piped_call : Bool → Bool → Piped → C PjStatus
unfolding conn_proxy_step disc_proxy_step
piped_call made added (conn_proxy a) = conn_proxy_step made added a
piped_call made added (disc_proxy a) = disc_proxy_step a

-- EventOnPipe, on the first function in the pipe; `none`: there is none.
unfoldable pub event_on_pipe : Bool → Bool → C (Option PjStatus)
unfolding piped_call
event_on_pipe made added t = elim t.pipe [
  | [] ↦ returns none t
  | x ∷ xs ↦ (do s ← piped_call made added x; return (some s)) (record t { pipe = xs })
]

-- EventOnTcpRead when pj_sock_recv reads nothing. The library calls it for a registered event only.
unfoldable pub event_on_tcp_closed : ℕ → C PjStatus
unfolding del_proxy
event_on_tcp_closed a = do
  link ← link_behind a
  elim link.tcp_ev [
    | null ↦ (λ t. crashed)
    | dangling ↦ (λ t. crashed)
    | live ↦ do
      (λ t. returns tt (record t {
        open_socks = close_sock link.sock t.open_socks;
        links = update t.links a (some (record { sock = none; tcp_ev = null }));
      }))
      del_proxy a
  ]

module _ (net : List Sent → Sent → PjStatus) where
  -- The Maintain method of the first scene that waits: the proxy is destroyed and deleted.
  unfoldable pub disc_proxy_scene : C (Unit {0})
  disc_proxy_scene t = elim t.scenes [
    | [] ↦ returns tt t
    | a ∷ rest ↦
        (do
          on_store (proxy_destory net a)
          (λ t'. returns tt (record t' {
            store = record t'.store { proxies = update t'.store.proxies a none };
            links = update t'.links a none;
          })))
          (record t { scenes = rest })
  ]

  -- The rest of LinkRoom, once there is a proxy.
  unfoldable pub link_to : ℕ → ℕ → C PjStatus
  link_to a r = do
    status ← on_store (proxy_link_room net a r)
    elim status [ eexists ↦ return success | s ↦ return s ]

  -- `id` is the number of the proxy in `param`, `r` the room.
  unfoldable pub link_room : Answers → Selected → ℕ → ℕ → C PjStatus
  unfolding find_proxy add_proxy link_to
  link_room answers selected id r = do
    (found, a) ← find_proxy id
    elim a [
      | some a ↦ link_to a r
      | none ↦ (λ t.
          let o = open_tcp_clientport answers selected t.open_socks in
          after_success o.status
            (do
              (added, new) ← add_proxy id answers.sock
              elim new [
                | none ↦ return added
                | some a ↦ do
                  status ← on_store (proxy_login net a)
                  after_success status (link_to a r)
              ])
            (record t { open_socks = o.open_socks }))
    ]

  unfoldable pub on_unlink_room : Option ℕ → C PjStatus
  unfolding del_proxy
  on_unlink_room none = return einval
  on_unlink_room (some r) = do
    room ← on_store (room_at r)
    elim room.proxy [
      | none ↦ return einval
      | some a ↦ do
        status ← on_store (proxy_unlink_room net a r)
        after_success status do
          size ← on_store (get_room_size net a)
          if size == 0 then (do del_proxy a; return success) else return success
    ]

  -- `title`: it is not null. With whether WM_CONTINUE_TRAVERSE is sent; `size` and `memory` are the
  -- response of the directory service.
  unfoldable pub on_link_room : Answers → Selected → ℕ → Bool → ℕ → Memory → C (PjStatus × Bool)
  unfolding link_room
  on_link_room answers selected r title size memory =
      elim (parse_http_response default_param size memory) [
        | overrun ↦ (λ t. crashed)
        | undefined ↦ (λ t. crashed)
        | parsed parsed_status p ↦ do
          status ← after_success parsed_status (link_room answers selected p.proxy_id r)
          elim status [ success ↦ return (success, false) | s ↦ return (s, title) ]
      ]
