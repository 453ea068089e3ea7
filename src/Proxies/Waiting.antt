-- ===== src/Proxies/Waiting.antt =====
-- OnRxNAT of a proxy: its loop links the rooms that wait (Monitor/Monitor/AvsProxy.cpp).
use real_time_monitor_agent.Base.{
  ℕ, suc, Bool, true, false, ◌==◌, if◌then◌else◌, ◌≡◌, refl, sym, List, [], ◌∷◌, ◌++◌, map,
  append-nil, append_assoc, Option, none, some, arith, All, Option-cases, inl, inr,
}
use native.Mathlib.Decide.{ℕ_discrete}
use real_time_monitor_agent.Base.OrdMap.{lookup, insert, lookup-insert}
use real_time_monitor_agent.Store.{
  Store, TitleRoom, AvsProxy, nating, online, Sent, ok, update, PjStatus, success,
}
use real_time_monitor_agent.Rooms.{rank32}
use real_time_monitor_agent.Proxies.{link_waiting, on_rx_nat, status_eq}
use real_time_monitor_agent.Proxies.Links.{link_packet, with_link, link_room-online}

-- What linking rooms one after another should do: `id_of` is the number of the room at an address,
-- a number that the proxy has already is passed over.
module _ (id_of : ℕ → ℕ) where
  unfoldable pub new_links : List (ℕ × ℕ) → List ℕ → List ℕ
  new_links m [] = []
  new_links m (r ∷ rs) =
      let passed = new_links m rs in
      let linked = r ∷ new_links (insert rank32 (id_of r) r m) rs in
      elim (lookup (id_of r) m) [ some q ↦ passed | none ↦ linked ]

  unfoldable pub with_rooms : List (ℕ × ℕ) → List ℕ → List (ℕ × ℕ)
  with_rooms m [] = m
  with_rooms m (r ∷ rs) =
      let passed = with_rooms m rs in
      let linked = with_rooms (insert rank32 (id_of r) r m) rs in
      elim (lookup (id_of r) m) [ some q ↦ passed | none ↦ linked ]

  -- How many of the rooms have a number, and whether one has it.
  unfoldable pub times : ℕ → List ℕ → ℕ
  times id [] = 0
  times id (r ∷ rs) = let rest = times id rs in if id_of r == id then suc rest else rest

  unfoldable pub waits_for : ℕ → List ℕ → Bool
  waits_for id [] = false
  waits_for id (r ∷ rs) = let rest = waits_for id rs in if id_of r == id then true else rest

  abbrev pub once : ℕ → List (ℕ × ℕ) → List ℕ → ℕ
  once id m rs = elim (lookup id m) [ some q ↦ 0 | none ↦ if waits_for id rs then 1 else 0 ]

  times-new_links :
      (id : ℕ) (m : List (ℕ × ℕ)) (rs : List ℕ) → times id (new_links m rs) ≡ once id m rs
  unfolding times waits_for new_links
  times-new_links id m [] = elim (Option-cases (lookup id m)) [
    | inl new ↦ ground (arith, new)
    | inr (q, known) ↦ ground (arith, known)
  ]
  times-new_links id m (r ∷ rs) = elim (Option-cases (lookup (id_of r) m)) [
    | inl new ↦ ground (
      arith,
      new,
      times-new_links id (insert rank32 (id_of r) r m) rs,
      lookup-insert rank32 (id_of r) id r m new,
    )
    | inr (q, known) ↦ ground (arith, known, times-new_links id m rs)
  ]

  -- The room at an address is there and has the number.
  abbrev pub HasId : (ℕ → Option TitleRoom) → ℕ → Type 0
  HasId rooms r = (room : TitleRoom) × (rooms r ≡ some room) × (room.id ≡ id_of r)

  keep-HasId :
      (rooms : ℕ → Option TitleRoom) (r : ℕ) (room : TitleRoom) (proxy : Option ℕ) (rs : List ℕ)
      → rooms r ≡ some room
      → All (HasId rooms) rs
      → All (HasId (update rooms r (some (record room { proxy = proxy })))) rs
  keep-HasId rooms r room proxy [] h ids = tt
  keep-HasId rooms r room proxy (q ∷ rs) h ((other, hq, id), ids) = (
    elim (ℕ_discrete r q) [
      | yes e ↦ (record room { proxy = proxy }, ground arith, ground (arith, hq, id, h))
      | no ne ↦ (other, ground (arith, hq), id)
    ],
    keep-HasId rooms r room proxy rs h ids,
  )

  module _ (a : ℕ) where
    -- What the loop leaves.
    pub record Linked (proxy : AvsProxy) (rs : List ℕ) (st st' : Store) : Type 0 where
      pub holds : st'.proxies a ≡ some (record proxy { rooms = with_rooms proxy.rooms rs })
      pub sent :
          st'.sent
          ≡ st.sent
            ++ map
                (λ r. link_packet a proxy.id st.config.client_id (id_of r))
                (new_links proxy.rooms rs)
      pub config : st'.config ≡ st.config
      pub users : st'.users ≡ st.users

    module _ (net : List Sent → Sent → PjStatus) where
      pub link_waiting-Linked :
          (rs : List ℕ) (proxy : AvsProxy) (st : Store)
          → st.proxies a ≡ some proxy
          → proxy.status ≡ online
          → All (HasId st.rooms) rs
          → (st' : Store) × (link_waiting net a rs st ≡ ok tt st') × Linked proxy rs st st'
      unfolding link_waiting new_links with_rooms
      link_waiting-Linked [] proxy st h e ids = (
        st,
        refl,
        record { holds = h; sent = sym (append-nil st.sent); config = refl; users = refl },
      )
      link_waiting-Linked (r ∷ rs) proxy st h e ((room, hr, id), ids) =
          elim (Option-cases (lookup (id_of r) proxy.rooms)) [
            | inl new ↦
                let proxy' : AvsProxy = record proxy {
                  rooms = insert rank32 (id_of r) r proxy.rooms;
                } in
                let st₁ : Store = with_link a r proxy room st in
                let (st₂, e₂, l) =
                  link_waiting-Linked rs proxy' st₁ (ground (arith, id)) e
                    (keep-HasId st.rooms r room (some a) rs hr ids) in
                (
                  st₂,
                  ground (arith, link_room-online net a r proxy room st h e hr, e₂, id),
                  record {
                    holds = ground (arith, l.holds, new);
                    sent = ground (
                      arith,
                      l.sent,
                      new,
                      id,
                      append_assoc st.sent
                          (link_packet a proxy.id st.config.client_id (id_of r) ∷ [])
                          (map (λ q. link_packet a proxy.id st.config.client_id (id_of q))
                            (new_links proxy'.rooms rs)),
                    );
                    config = l.config;
                    users = l.users;
                  },
                )
            | inr (q, known) ↦
                let (st₂, e₂, l) = link_waiting-Linked rs proxy st h e ids in
                (
                  st₂,
                  ground (arith, link_room-online net a r proxy room st h e hr, e₂, id),
                  record {
                    holds = ground (arith, l.holds, known);
                    sent = ground (arith, l.sent, known);
                    config = l.config;
                    users = l.users;
                  },
                )
          ]

      -- The NAT reply of a proxy that waits for it, when every room that waits still exists, brings the
      -- proxy online and asks it for the rooms that wait, in the order in which they were asked for: for
      -- each number of a room that waits once if the proxy does not have it, and for no other number. No
      -- room waits any more, and a failed send changes none of this.
      pub on_rx_nat-links :
          (proxy : AvsProxy) (st : Store)
          → st.proxies a ≡ some proxy
          → proxy.status ≡ nating
          → All (HasId st.rooms) proxy.waits_rooms
          → (st' : Store) × (on_rx_nat net a st ≡ ok success st')
            × (st'.proxies a
                ≡ some (record {
                  status = online;
                  id = proxy.id;
                  rooms = with_rooms proxy.rooms proxy.waits_rooms;
                  waits_rooms = [];
                }))
            × (st'.sent
                ≡ st.sent
                  ++ map
                      (λ r. link_packet a proxy.id st.config.client_id (id_of r))
                      (new_links proxy.rooms proxy.waits_rooms))
            × ((id : ℕ)
                → times id (new_links proxy.rooms proxy.waits_rooms)
                  ≡ once id proxy.rooms proxy.waits_rooms)
            × (st'.users ≡ st.users)
      unfolding on_rx_nat status_eq
      on_rx_nat-links proxy st h e ids =
          let proxy' : AvsProxy = record proxy { status = online } in
          let st₁ : Store = record st { proxies = update st.proxies a (some proxy') } in
          let (st₂, e₂, l) =
            link_waiting-Linked proxy.waits_rooms proxy' st₁ (ground arith) refl ids in
          let behind : AvsProxy = record {
            status = online;
            id = proxy.id;
            rooms = with_rooms proxy.rooms proxy.waits_rooms;
            waits_rooms = [];
          } in
          (
            record st₂ { proxies = update st₂.proxies a (some behind) },
            ground (arith, e₂, l.holds),
            ground arith,
            l.sent,
            λ id. times-new_links id proxy.rooms proxy.waits_rooms,
            l.users,
          )
