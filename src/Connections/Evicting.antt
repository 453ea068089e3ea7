-- ===== src/Connections/Evicting.antt =====
-- A socket that closes after its proxy has left the table (Monitor/Monitor/ScreenMgr.cpp).
use real_time_monitor_agent.Base.{
  ℕ, ◌≡◌, ◌≢◌, refl, List, [], ◌∷◌, ◌++◌, none, some, Bool, true, arith,
}
use real_time_monitor_agent.Base.OrdMap.{lookup, erase, IsMap, lookup-erase}
use real_time_monitor_agent.Store.{Store, AvsProxy, Sent, ok, PjStatus, success, update}
use real_time_monitor_agent.Proxies.{proxy_destory, destory_rooms}
use real_time_monitor_agent.Connections.{
  null, live, Piped, conn_proxy, disc_proxy, ProxyTable, returns, crashed, ◌>>◌,
}
use real_time_monitor_agent.Connections.Events.{
  close_sock, event_on_tcp_closed, event_on_pipe, disc_proxy_scene,
}

-- The proxy at `a` has left the table and is to be disconnected; one at `b` has its number now, whose
-- socket is to be registered. Both calls are in the pipe, in that order.
pub record Replaced (a b s s' : ℕ) (proxy : AvsProxy) (t : ProxyTable) : Type 0 where
  pub here : t.store.proxies a ≡ some proxy
  pub no_rooms : proxy.rooms ≡ []
  pub registered : t.links a ≡ some (record { sock = some s; tcp_ev = live })
  pub waiting : t.links b ≡ some (record { sock = some s'; tcp_ev = null })
  pub taken : lookup proxy.id t.linked_proxys ≡ some b
  pub keyed : IsMap t.linked_proxys
  pub leaving : t.pipe ≡ disc_proxy a ∷ (conn_proxy b ∷ [])
  pub no_scenes : t.scenes ≡ []

-- What EventOnTcpRead leaves.
abbrev evicted : ℕ → ℕ → ℕ → AvsProxy → ProxyTable → ProxyTable
evicted a b s proxy t = record t {
  open_socks = close_sock (some s) t.open_socks;
  links = update t.links a (some (record { sock = none; tcp_ev = null }));
  linked_proxys = erase proxy.id t.linked_proxys;
  pipe = disc_proxy a ∷ (conn_proxy b ∷ (disc_proxy a ∷ []));
}

closed-evicted :
    (a b s s' : ℕ) (proxy : AvsProxy) (t : ProxyTable)
    → Replaced a b s s' proxy t
    → event_on_tcp_closed a t ≡ returns success (evicted a b s proxy t)
unfolding event_on_tcp_closed
closed-evicted a b s s' proxy t v = ground arith

disc_null :
    (a : ℕ) (xs : List Piped) (made added : Bool) (t : ProxyTable)
    → t.pipe ≡ disc_proxy a ∷ xs
    → t.links a ≡ some (record { sock = none; tcp_ev = null })
    → event_on_pipe made added t
      ≡ returns (some success) (record t { pipe = xs; scenes = t.scenes ++ (a ∷ []) })
unfolding event_on_pipe
disc_null a xs made added t e h = ground arith

conn_null :
    (b s' : ℕ) (xs : List Piped) (t : ProxyTable)
    → t.pipe ≡ conn_proxy b ∷ xs
    → t.links b ≡ some (record { sock = some s'; tcp_ev = null })
    → event_on_pipe true true t
      ≡ returns (some success) (record t {
        pipe = xs;
        links = update t.links b (some (record { sock = some s'; tcp_ev = live }));
      })
unfolding event_on_pipe
conn_null b s' xs t e h = ground arith

module _ (net : List Sent → Sent → PjStatus) where
  destory-idle :
      (a : ℕ) (proxy : AvsProxy) (st : Store)
      → st.proxies a ≡ some proxy
      → proxy.rooms ≡ []
      → proxy_destory net a st ≡ ok tt st
  unfolding proxy_destory destory_rooms
  destory-idle a proxy st h empty = ground arith

  scene_deletes :
      (a : ℕ) (rest : List ℕ) (proxy : AvsProxy) (t : ProxyTable)
      → t.scenes ≡ a ∷ rest
      → t.store.proxies a ≡ some proxy
      → proxy.rooms ≡ []
      → disc_proxy_scene net t
        ≡ returns tt (record t {
          store = record t.store { proxies = update t.store.proxies a none };
          links = update t.links a none;
          scenes = rest;
        })
  unfolding disc_proxy_scene
  scene_deletes a rest proxy t e h empty = ground (arith, destory-idle a proxy t.store h empty)

  scene_crashes :
      (a : ℕ) (rest : List ℕ) (t : ProxyTable)
      → t.scenes ≡ a ∷ rest
      → t.store.proxies a ≡ none
      → disc_proxy_scene net t ≡ crashed
  unfolding disc_proxy_scene proxy_destory
  scene_crashes a rest t e h = ground arith

  -- A proxy is unlinked and its call to be disconnected in the pipe, and another one has been linked
  -- under its number, whose call to be connected lies behind it. If the socket of the first one closes
  -- before the pipe is read, EventOnTcpRead takes the second one out of the table and puts the first one
  -- into the pipe once more. Then the three calls of the pipe register the socket of the second one,
  -- whose number the table does not know, and leave two scenes of the first one: the second scene uses
  -- the deleted proxy.
  pub closed-evicts :
      (a b s s' : ℕ) (proxy : AvsProxy) (t : ProxyTable)
      → Replaced a b s s' proxy t
      → a ≢ b
      → (t' t'' : ProxyTable) × (event_on_tcp_closed a t ≡ returns success t')
        × ((do event_on_pipe true true; event_on_pipe true true; event_on_pipe true true) t'
            ≡ returns (some success) t'')
        × (t''.links b ≡ some (record { sock = some s'; tcp_ev = live }))
        × (lookup proxy.id t''.linked_proxys ≡ none)
        × (t''.scenes ≡ a ∷ (a ∷ []))
        × ((do disc_proxy_scene net; disc_proxy_scene net) t'' ≡ crashed)
  closed-evicts a b s s' proxy t v ne =
      let t₁ : ProxyTable = evicted a b s proxy t in
      let t₂ : ProxyTable = record t₁ {
        pipe = conn_proxy b ∷ (disc_proxy a ∷ []);
        scenes = t₁.scenes ++ (a ∷ []);
      } in
      let t₃ : ProxyTable = record t₂ {
        pipe = disc_proxy a ∷ [];
        links = update t₂.links b (some (record { sock = some s'; tcp_ev = live }));
      } in
      let t₄ : ProxyTable = record t₃ { pipe = []; scenes = t₃.scenes ++ (a ∷ []) } in
      let two : t₄.scenes ≡ a ∷ (a ∷ []) = ground (arith, v.no_scenes) in
      let gone : t₁.links a ≡ some (record { sock = none; tcp_ev = null }) = ground arith in
      (
        t₁,
        t₄,
        closed-evicted a b s s' proxy t v,
        ground (
          arith,
          disc_null a (conn_proxy b ∷ (disc_proxy a ∷ [])) true true t₁ refl gone,
          conn_null b s' (disc_proxy a ∷ []) t₂ refl (ground (arith, v.waiting)),
          disc_null a [] true true t₃ refl (ground arith),
        ),
        ground arith,
        ground (arith, lookup-erase proxy.id proxy.id t.linked_proxys v.keyed),
        two,
        ground (
          arith,
          scene_deletes a (a ∷ []) proxy t₄ two v.here v.no_rooms,
          scene_crashes a []
              (record t₄ {
                store = record t₄.store { proxies = update t₄.store.proxies a none };
                links = update t₄.links a none;
                scenes = a ∷ [];
              })
              refl (ground arith),
        ),
      )
