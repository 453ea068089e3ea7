-- ===== src/Proxies/Queue.antt =====
-- LinkRoom of a proxy that is not online yet (Monitor/Monitor/AvsProxy.cpp).
use real_time_monitor_agent.Base.{
  ℕ, ◌≡◌, refl, List, [], ◌∷◌, ◌++◌, append-nil, append_assoc, some, false, arith,
}
use real_time_monitor_agent.Store.{Store, AvsProxy, online, Sent, ok, PjStatus, update}
use real_time_monitor_agent.Proxies.{link_waiting, status_eq}
use real_time_monitor_agent.Proxies.Links.{link_room-waits}

module _ (net : List Sent → Sent → PjStatus) (a : ℕ) where
  -- LinkRoom of the rooms of a list, one after another, while the proxy is not online: all of them
  -- wait, behind those that waited, in that order; nothing is sent and nothing else of the proxy changes.
  pub link_rooms-queue :
      (rs : List ℕ) (proxy : AvsProxy) (st : Store)
      → st.proxies a ≡ some proxy
      → status_eq proxy.status online ≡ false
      → (st' : Store) × (link_waiting net a rs st ≡ ok tt st')
        × (st'.proxies a ≡ some (record proxy { waits_rooms = proxy.waits_rooms ++ rs }))
        × (st'.sent ≡ st.sent)
        × (st'.rooms ≡ st.rooms)
  unfolding link_waiting
  link_rooms-queue [] proxy st h e =
      (st, refl, ground (arith, h, append-nil proxy.waits_rooms), refl, refl)
  link_rooms-queue (r ∷ rs) proxy st h e =
      let proxy' : AvsProxy = record proxy { waits_rooms = proxy.waits_rooms ++ (r ∷ []) } in
      let st₁ : Store = record st { proxies = update st.proxies a (some proxy') } in
      let (st₂, e₂, holds, sent, rooms) = link_rooms-queue rs proxy' st₁ (ground arith) e in
      (
        st₂,
        ground (arith, link_room-waits net a r proxy st h e, e₂),
        ground (arith, holds, append_assoc proxy.waits_rooms (r ∷ []) rs),
        sent,
        rooms,
      )
