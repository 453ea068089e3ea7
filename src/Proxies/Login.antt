-- ===== src/Proxies/Login.antt =====
-- The login of a proxy: which packets are sent before it is online (Monitor/Monitor/AvsProxy.cpp).
use real_time_monitor_agent.Base.{
  ℕ, suc, ◌≤◌, ◌≡◌, refl, sym, List, [], ◌∷◌, ◌++◌, Option, none, some, true, arith, inl, inr,
  Bool-cases,
}
use real_time_monitor_agent.Base.OrdMap.{lookup, insert}
use real_time_monitor_agent.Rooms.{rank32}
use real_time_monitor_agent.Proxies.Links.{
  with_link, link_room-new, link_room-known, link_room-waits, link_room-no_room, link_room-no_proxy,
}
use real_time_monitor_agent.Proxies.Sends.{
  is_login, is_nat, logins, nats, Asked, Handshake, successes_one, successes_more, sending,
  restatus, Runs-proxy_at, Runs-on_success, set_status-Runs,
}
use mathlib.Core.Path.{subst}
use real_time_monitor_agent.Wire.Requests.{Nat, Login, login}
use real_time_monitor_agent.Store.{
  Store, TitleRoom, AvsProxy, AvsProxyStatus, uninit, logining, nating, online, Sent, tcp, udp, M,
  PjStatus, success, eexists, put_proxy, ◌>>=◌,
}
use real_time_monitor_agent.Store.Keeps.{
  Keeps, Runs, Returned, Runs-bind, Runs-weaken, Runs-equal, Runs-faults, Keeps-pure, Runs-if,
}
use real_time_monitor_agent.Proxies.{
  proxy_login, on_rx_login, on_rx_nat, proxy_link_room, link_waiting, send, on_success, status_eq,
  get_store, type_nat,
}

module _ (net : List Sent → Sent → PjStatus) where
  Asked-logining :
      (a : ℕ) (s : AvsProxyStatus) (l : List Sent)
      → status_eq s logining ≡ true
      → Asked net a s l
      → 1 ≤ logins net a l
  unfolding status_eq
  Asked-logining a uninit l e h = ground arith
  Asked-logining a logining l e h = h
  Asked-logining a nating l e h = h.0
  Asked-logining a online l e h = h.0

  Asked-online :
      (a : ℕ) (s : AvsProxyStatus) (l : List Sent)
      → status_eq s nating ≡ true
      → Asked net a s l
      → Asked net a online l
  unfolding status_eq
  Asked-online a uninit l e h = ground arith
  Asked-online a logining l e h = ground arith
  Asked-online a nating l e h = h
  Asked-online a online l e h = h

is_online : (s : AvsProxyStatus) → status_eq s online ≡ true → s ≡ online
unfolding status_eq
is_online uninit e = ground arith
is_online logining e = ground arith
is_online nating e = ground arith
is_online online e = refl

module _ (net : List Sent → Sent → PjStatus) (a : ℕ) where
  -- The login and `n` datagrams were sent, and the last packet with the status `s`.
  Greeted : ℕ → Store → Type 0
  Greeted n st = Handshake net st × (1 ≤ logins net a st.sent) × (n ≤ nats net a st.sent)

  send_nat-Runs :
      (n : ℕ) (x : Nat)
      → Runs
          (Greeted n)
          (send net (udp a x))
          (λ s st. Greeted n st × (s ≡ success → Greeted (suc n) st))
  unfolding send Greeted
  send_nat-Runs n x = record {
    run = λ st v.
        let more = successes_more net (is_login a) st.sent (udp a x ∷ []) in
        let more' = successes_more net (is_nat a) st.sent (udp a x ∷ []) in
        (
          (sending net st _ v.0, omega (arith, v.1, more), omega (arith, v.2, more')),
          λ e. (
            sending net st _ v.0,
            omega (arith, v.1, more),
            omega (arith, v.2, successes_one net (is_nat a) (udp a x) st.sent (ground arith) e),
          ),
        );
  }

  Greeted-Handshake : (n : ℕ) (st : Store) → Greeted n st → Handshake net st
  unfolding Greeted
  Greeted-Handshake n st v = v.0

  Greeted-nating : (st : Store) → Greeted 3 st → Handshake net st × Asked net a nating st.sent
  unfolding Greeted
  Greeted-nating st v = (v.0, (v.1, v.2))

  greet :
      (proxy : AvsProxy) (st : Store)
      → Handshake net st
      → st.proxies a ≡ some proxy
      → status_eq proxy.status logining ≡ true
      → Greeted 0 st
  unfolding Greeted
  greet proxy st v h e =
      (v, Asked-logining net a proxy.status st.sent e (v.asked a proxy h), omega arith)

  send_login-Runs :
      (x : Login)
      → Runs
          (Handshake net)
          (send net (tcp a (login x)))
          (λ s st. Handshake net st × (s ≡ success → Asked net a logining st.sent))
  unfolding send
  send_login-Runs x = record {
    run = λ st v. (
      sending net st _ v,
      λ e. omega (arith, successes_one net (is_login a) (tcp a (login x)) st.sent (ground arith) e),
    );
  }

  Runs-get_store : {P : Store → Type 0} → Runs P get_store (λ z. P)
  Runs-get_store = record { run = λ st v. v }

  pub login-Handshake : Keeps (Handshake net) (proxy_login net a)
  unfolding proxy_login
  login-Handshake = Runs-bind (Runs-proxy_at a) λ proxy. Runs-bind Runs-get_store λ st.
      Runs-if (status_eq proxy.status uninit)
        (λ e. Runs-bind (Runs-weaken (λ z v. v.0) (send_login-Runs _) (λ s z v. v)) λ s.
          Runs-on_success net s (λ z v. v.0)
            λ sent.
              Runs-weaken (λ z v. (v.0, v.1 sent))
                (Runs-bind (set_status-Runs net a logining) λ x. Keeps-pure {a = success})
                (λ x z v. v))
        (λ e. Runs-weaken (λ z v. v.0) Keeps-pure (λ x z v. v))

  nat_packet : ℕ → ℕ → Nat
  nat_packet proxy_id client_id = record {
    client_request_type = type_nat;
    proxy_id = proxy_id;
    room_id = 0;
    client_id = client_id;
  }

  -- One datagram and then, if it was sent, the rest.
  then_nat :
      {rest : PjStatus → M PjStatus} (n : ℕ) (x : Nat)
      → ((s : PjStatus) → Runs (Greeted (suc n)) (rest s) (λ y. Handshake net))
      → Runs
          (Greeted n)
          (send net (udp a x) >>= λ s. on_success net s (rest s))
          (λ y. Handshake net)
  then_nat n x keep = Runs-bind (send_nat-Runs n x) λ s.
      Runs-on_success net s (λ z v. Greeted-Handshake n z v.0)
        λ sent. Runs-weaken (λ z v. v.1 sent) (keep s) (λ y z v. v)

  pub on_rx_login-Handshake : Keeps (Handshake net) (on_rx_login net a)
  unfolding on_rx_login nat_packet
  on_rx_login-Handshake = Runs-bind (Runs-proxy_at a) λ proxy. Runs-bind Runs-get_store λ st.
      Runs-if (status_eq proxy.status logining)
        (λ e.
          let x = nat_packet proxy.id st.config.client_id in
          Runs-weaken (λ z v. greet proxy z v.0 v.1 e)
            (then_nat 0 x λ s. then_nat 1 x λ s'. then_nat 2 x λ s''.
              Runs-weaken (λ z v. Greeted-nating z v)
                (Runs-bind (set_status-Runs net a nating) λ y. Keeps-pure {a = success})
                (λ y z v. v))
            (λ y z v. v))
        (λ e. Runs-weaken (λ z v. v.0) Keeps-pure (λ x z v. v))

  put_proxy-Runs :
      (proxy other : AvsProxy)
      → other.status ≡ proxy.status
      → Runs
          (λ st. Handshake net st × (st.proxies a ≡ some proxy))
          (put_proxy a other)
          (λ x. Handshake net)
  put_proxy-Runs proxy other e = record {
    run = λ st v.
        restatus net a other st v.0
          (subst (λ s. Asked net a s st.sent) (sym e) (v.0.asked a proxy v.1));
  }

  -- Sends and the maps of rooms do not matter.
  pub link_room-Handshake : (r : ℕ) → Keeps (Handshake net) (proxy_link_room net a r)
  link_room-Handshake r = record { run = λ st v. to_proxy st v (st.proxies a) refl }
    where
      linked :
          (st : Store) (proxy : AvsProxy) (room : TitleRoom) (v : Handshake net st)
          → st.proxies a ≡ some proxy
          → proxy.status ≡ online
          → st.rooms r ≡ some room
          → (o : Option ℕ) → lookup room.id proxy.rooms ≡ o
          → Returned (λ s. Handshake net) (proxy_link_room net a r st)
      linked st proxy room v h e hr none new =
          Runs-equal (λ s. Handshake net) (proxy_link_room net a r) st _
            (with_link a r proxy room st) (link_room-new net a r proxy room st h e hr new)
            (sending net (record (with_link a r proxy room st) { sent = st.sent }) _
              (record {
                asked =
                    (restatus net a (record proxy { rooms = insert rank32 room.id r proxy.rooms })
                      st v (v.asked a proxy h)).asked;
              }))
      linked st proxy room v h e hr (some q) known =
          Runs-equal (λ s. Handshake net) (proxy_link_room net a r) st eexists st
            (link_room-known net a r q proxy room st h e hr known) v

      to_room :
          (st : Store) (proxy : AvsProxy) (v : Handshake net st)
          → st.proxies a ≡ some proxy
          → proxy.status ≡ online
          → (o : Option TitleRoom) → st.rooms r ≡ o
          → Returned (λ s. Handshake net) (proxy_link_room net a r st)
      to_room st proxy v h e none hr =
          Runs-faults (λ s. Handshake net) (proxy_link_room net a r) st
            (link_room-no_room net a r proxy st h e hr)
      to_room st proxy v h e (some room) hr =
          linked st proxy room v h e hr (lookup room.id proxy.rooms) refl

      to_proxy :
          (st : Store) (v : Handshake net st) (o : Option AvsProxy)
          → st.proxies a ≡ o
          → Returned (λ s. Handshake net) (proxy_link_room net a r st)
      to_proxy st v none h =
          Runs-faults (λ s. Handshake net) (proxy_link_room net a r) st
            (link_room-no_proxy net a r st h)
      to_proxy st v (some proxy) h = elim (Bool-cases (status_eq proxy.status online)) [
        | inl e ↦ to_room st proxy v h (is_online proxy.status e) (st.rooms r) refl
        | inr e ↦
            Runs-equal (λ s. Handshake net) (proxy_link_room net a r) st success _
              (link_room-waits net a r proxy st h e)
              (restatus net a (record proxy { waits_rooms = proxy.waits_rooms ++ (r ∷ []) }) st v
                (v.asked a proxy h))
      ]

  link_waiting-Handshake : (rs : List ℕ) → Keeps (Handshake net) (link_waiting net a rs)
  unfolding link_waiting
  link_waiting-Handshake [] = record { run = λ st v. v }
  link_waiting-Handshake (r ∷ rs) = Runs-bind (link_room-Handshake r) λ s. link_waiting-Handshake rs

  pub on_rx_nat-Handshake : Keeps (Handshake net) (on_rx_nat net a)
  unfolding on_rx_nat
  on_rx_nat-Handshake = Runs-bind (Runs-proxy_at a) λ proxy.
      Runs-if (status_eq proxy.status nating)
        (λ e.
          Runs-weaken
            (λ z v. (v.0, Asked-online net a proxy.status z.sent e (v.0.asked a proxy v.1)))
            (Runs-bind (set_status-Runs net a online) λ x.
              Runs-bind (link_waiting-Handshake proxy.waits_rooms) λ y.
                Runs-bind (Runs-proxy_at a) λ proxy'.
                  Runs-bind (put_proxy-Runs proxy' (record proxy' { waits_rooms = [] }) refl)
                    λ w. Keeps-pure {a = success})
            (λ x z v. v))
        (λ e. Runs-weaken (λ z v. v.0) Keeps-pure (λ x z v. v))
