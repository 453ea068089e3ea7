-- ===== src/Connections/Linking.antt =====
-- LinkRoom with a proxy that is not yet connected (Monitor/Monitor/ScreenMgr.cpp).
use real_time_monitor_agent.Base.{
  ℕ, ◌≡◌, ◌≢◌, refl, ◌∙◌, List, [], ◌∷◌, ◌++◌, none, some, false, arith,
}
use real_time_monitor_agent.Base.OrdMap.{lookup, lookup-insert}
use real_time_monitor_agent.Wire.Requests.{login}
use real_time_monitor_agent.Store.{
  Store, AvsProxy, uninit, logining, online, Sent, tcp, ok, PjStatus, success, einval, eexists,
  enotfound, failed, update,
}
use real_time_monitor_agent.Proxies.{proxy_login, proxy_link_room, status_eq, type_login}
use real_time_monitor_agent.Sockets.{Answers, Selected, open_tcp_clientport}
use real_time_monitor_agent.Connections.{
  null, conn_proxy, ProxyTable, returns, C, ◌>>=◌, on_store, after_success, rank16, new_proxy,
}
use real_time_monitor_agent.Connections.Events.{link_to, link_room}

abbrev pub login_packet : ℕ → ℕ → Store → Sent
login_packet a id st = tcp a (
    login (record {
      length = 0;
      client_request_type = type_login;
      proxy_id = id;
      client_id = st.config.client_id;
      media_ip = st.config.local_ip;
      media_port = st.config.local_media_port;
    }))

on_failure :
    (s : PjStatus) (rest : C PjStatus) (t : ProxyTable)
    → s ≢ success
    → after_success s rest t ≡ returns s t
on_failure success rest t bad = absurd (bad refl)
on_failure einval rest t bad = refl
on_failure eexists rest t bad = refl
on_failure enotfound rest t bad = refl
on_failure failed rest t bad = refl

module _ (net : List Sent → Sent → PjStatus) where
  login_sent :
      (a : ℕ) (proxy : AvsProxy) (st : Store)
      → st.proxies a ≡ some proxy
      → proxy.status ≡ uninit
      → net st.sent (login_packet a proxy.id st) ≡ success
      → proxy_login net a st
        ≡ ok success (record st {
          proxies = update st.proxies a (some (record proxy { status = logining }));
          sent = st.sent ++ (login_packet a proxy.id st ∷ []);
        })
  unfolding proxy_login
  login_sent a proxy st h off e = ground arith

  login_fails :
      (s : PjStatus) (a : ℕ) (proxy : AvsProxy) (st : Store)
      → st.proxies a ≡ some proxy
      → proxy.status ≡ uninit
      → net st.sent (login_packet a proxy.id st) ≡ s
      → s ≢ success
      → proxy_login net a st
        ≡ ok s (record st { sent = st.sent ++ (login_packet a proxy.id st ∷ []) })
  unfolding proxy_login
  login_fails success a proxy st h off e bad = absurd (bad refl)
  login_fails einval a proxy st h off e bad = ground arith
  login_fails eexists a proxy st h off e bad = ground arith
  login_fails enotfound a proxy st h off e bad = ground arith
  login_fails failed a proxy st h off e bad = ground arith

  after_login :
      (s : PjStatus) (a r : ℕ) (st : Store) (t : ProxyTable)
      → proxy_login net a t.store ≡ ok s st
      → (on_store (proxy_login net a) >>= λ status. after_success status (link_to net a r)) t
        ≡ after_success s (link_to net a r) (record t { store = st })
  after_login s a r st t e = rw (e, ◌>>=◌) refl

  -- A proxy that is not online takes a room by putting it into its list.
  link_to-waits :
      (a r : ℕ) (proxy : AvsProxy) (t : ProxyTable)
      → t.store.proxies a ≡ some proxy
      → status_eq proxy.status online ≡ false
      → link_to net a r t
        ≡ returns success (record t {
          store = record t.store {
            proxies =
                update t.store.proxies a
                  (some (record proxy { waits_rooms = proxy.waits_rooms ++ (r ∷ []) }));
          };
        })
  unfolding link_to proxy_link_room
  link_to-waits a r proxy t h off = ground arith

  module _ (answers : Answers) (selected : Selected) (id : ℕ) where
    link_room-known :
        (a r : ℕ) (t : ProxyTable)
        → lookup id t.linked_proxys ≡ some a
        → link_room net answers selected id r t ≡ link_to net a r t
    unfolding link_room
    link_room-known a r t found = ground arith

    -- AddProxy, once the socket is open.
    abbrev entered : ProxyTable → ProxyTable
    entered t =
        record (new_proxy id answers.sock (record t {
          open_socks = (open_tcp_clientport answers selected t.open_socks).open_socks;
        })) { pipe = t.pipe ++ (conn_proxy t.next_proxy ∷ []) }

    link_room-enters :
        (r : ℕ) (t : ProxyTable)
        → lookup id t.linked_proxys ≡ none
        → (open_tcp_clientport answers selected t.open_socks).status ≡ success
        → link_room net answers selected id r t
          ≡ (on_store (proxy_login net t.next_proxy) >>= λ status.
                after_success status (link_to net t.next_proxy r))
              (entered t)
    unfolding link_room
    link_room-enters r t missing opened = ground arith

    -- LinkRoom of a room whose proxy is not connected, when the socket opens and the login is sent: the
    -- proxy stands in the table under its number and waits for the answer, the room waits in its list,
    -- the socket is handed to the thread of the events through the pipe, and the login is the one
    -- packet sent.
    pub link_room-connects :
        (r : ℕ) (t : ProxyTable)
        → lookup id t.linked_proxys ≡ none
        → (open_tcp_clientport answers selected t.open_socks).status ≡ success
        → net t.store.sent (login_packet t.next_proxy id t.store) ≡ success
        → (t' : ProxyTable) × (link_room net answers selected id r t ≡ returns success t')
          × (lookup id t'.linked_proxys ≡ some t.next_proxy)
          × (t'.store.proxies t.next_proxy
              ≡ some (record { status = logining; id = id; rooms = []; waits_rooms = r ∷ [] }))
          × (t'.links t.next_proxy ≡ some (record { sock = some answers.sock; tcp_ev = null }))
          × (t'.pipe ≡ t.pipe ++ (conn_proxy t.next_proxy ∷ []))
          × (t'.store.sent ≡ t.store.sent ++ (login_packet t.next_proxy id t.store ∷ []))
    link_room-connects r t missing opened sent =
        let fresh : AvsProxy = record { status = uninit; id = id; rooms = []; waits_rooms = [] } in
        let t₁ : ProxyTable = entered t in
        let st₂ : Store = record t₁.store {
          proxies =
              update t₁.store.proxies t.next_proxy (some (record fresh { status = logining }));
          sent = t₁.store.sent ++ (login_packet t.next_proxy id t.store ∷ []);
        } in
        let t₂ : ProxyTable = record t₁ { store = st₂ } in
        (
          record t₂ {
            store = record st₂ {
              proxies =
                  update st₂.proxies t.next_proxy
                    (some (record fresh { status = logining; waits_rooms = r ∷ [] }));
            };
          },
          (link_room-enters r t missing opened
              ∙ after_login success t.next_proxy r st₂ t₁
                  (login_sent t.next_proxy fresh t₁.store (ground arith) refl sent)
              ∙ link_to-waits t.next_proxy r (record fresh { status = logining }) t₂ (ground arith)
                  (unfold status_eq in refl)),
          ground (arith, lookup-insert rank16 id id t.next_proxy t.linked_proxys missing),
          ground arith,
          ground arith,
          refl,
          refl,
        )

    -- When the login of a new proxy is not sent, LinkRoom returns its status and leaves the proxy in the
    -- table in the state before a login. The next LinkRoom for the same number, of any room, then
    -- succeeds, sends nothing and leaves the room in the list that waits for the answer to a login.
    pub link_room-strands :
        (r : ℕ) (s : PjStatus) (t : ProxyTable)
        → lookup id t.linked_proxys ≡ none
        → (open_tcp_clientport answers selected t.open_socks).status ≡ success
        → net t.store.sent (login_packet t.next_proxy id t.store) ≡ s
        → s ≢ success
        → (t' : ProxyTable) × (link_room net answers selected id r t ≡ returns s t')
          × ((r' : ℕ)
              → (t'' : ProxyTable) × (link_room net answers selected id r' t' ≡ returns success t'')
                × (t''.store.sent ≡ t'.store.sent)
                × (t''.store.proxies t.next_proxy
                    ≡ some
                        (record { status = uninit; id = id; rooms = []; waits_rooms = r' ∷ [] })))
    link_room-strands r s t missing opened sent bad =
        let fresh : AvsProxy = record { status = uninit; id = id; rooms = []; waits_rooms = [] } in
        let t₁ : ProxyTable = entered t in
        let st₂ : Store = record t₁.store {
          sent = t₁.store.sent ++ (login_packet t.next_proxy id t.store ∷ []);
        } in
        let t₂ : ProxyTable = record t₁ { store = st₂ } in
        let found : lookup id t₂.linked_proxys ≡ some t.next_proxy =
          ground (arith, lookup-insert rank16 id id t.next_proxy t.linked_proxys missing) in
        (
          t₂,
          link_room-enters r t missing opened
              ∙ after_login s t.next_proxy r st₂ t₁
                  (login_fails s t.next_proxy fresh t₁.store (ground arith) refl sent bad)
              ∙ on_failure s (link_to net t.next_proxy r) t₂ bad,
          λ r'. (
            record t₂ {
              store = record st₂ {
                proxies =
                    update st₂.proxies t.next_proxy (some (record fresh { waits_rooms = r' ∷ [] }));
              };
            },
            link_room-known t.next_proxy r' t₂ found
                ∙ link_to-waits t.next_proxy r' fresh t₂ (ground arith) (unfold status_eq in refl),
            refl,
            ground arith,
          ),
        )
