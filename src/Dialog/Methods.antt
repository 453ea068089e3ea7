-- ===== src/Dialog/Methods.antt =====
-- The methods of the proxies (Monitor/Monitor/AvsProxy.cpp) and of the watched rooms (WatchsList.cpp)
-- keep users and screens linked both ways.
use real_time_monitor_agent.Base.{ℕ, List, [], ◌∷◌, ◌++◌, some}
use real_time_monitor_agent.Base.OrdMap.{lookup, behind}
use real_time_monitor_agent.Store.{
  AvsProxy, uninit, logining, online, Sent, M, PjStatus, success, einval, eexists, enotfound,
  failed, put_proxy,
}
use real_time_monitor_agent.Store.Keeps.{
  Keeps, Runs-bind, Keeps-pure, Runs-option, Runs-if, Runs-weaken, Runs-user_at, Keeps-room_at,
  Keeps-proxy_at,
}
use real_time_monitor_agent.Rooms.{on_create, increase_count}
use real_time_monitor_agent.Rooms.Invariant.{Keeps-put_room, with_room_lock-Keeps, on_destory-Keeps}
use real_time_monitor_agent.Proxies.{
  get_store, send, on_success, status_eq, proxy_login, add_room, del_room, get_room_size,
  proxy_link_room, proxy_unlink_room,
}
use real_time_monitor_agent.Watch.{
  WatchsList, show_rooms, room_on_show_page, on_show_page, count_users, page_count, next_page,
  prev_page,
}
use real_time_monitor_agent.Wall.Invariant.{
  Sound, screen_disconnect_user-Keeps, unlink_room_user-Keeps,
}
use real_time_monitor_agent.Wall.{unlink_screen_user}

Keeps-put_proxy : (a : ℕ) (proxy : AvsProxy) → Keeps Sound (put_proxy a proxy)
Keeps-put_proxy a proxy = record {
  run = λ st v. record { linked = v.linked; free = v.free; housed = v.housed };
}

Keeps-get_store : Keeps Sound get_store
Keeps-get_store = record { run = λ st v. v }

-- After a status: one branch for success, one for the others.
Runs-status :
    {A : Type 0} {m n : M A} (s : PjStatus)
    → Keeps Sound m
    → Keeps Sound n
    → Keeps Sound (elim s [ success ↦ m | _ ↦ n ])
Runs-status success keep keep' = keep
Runs-status einval keep keep' = keep'
Runs-status eexists keep keep' = keep'
Runs-status enotfound keep keep' = keep'
Runs-status failed keep keep' = keep'

module _ (net : List Sent → Sent → PjStatus) where
  send-Keeps : (x : Sent) → Keeps Sound (send net x)
  unfolding send
  send-Keeps x = record {
    run = λ st v. record { linked = v.linked; free = v.free; housed = v.housed };
  }

  on_success-Keeps :
      (s : PjStatus) (m : M PjStatus) → Keeps Sound m → Keeps Sound (on_success net s m)
  on_success-Keeps success m keep = keep
  on_success-Keeps einval m keep = Keeps-pure
  on_success-Keeps eexists m keep = Keeps-pure
  on_success-Keeps enotfound m keep = Keeps-pure
  on_success-Keeps failed m keep = Keeps-pure

  pub proxy_login-Keeps : (a : ℕ) → Keeps Sound (proxy_login net a)
  unfolding proxy_login
  proxy_login-Keeps a = Runs-bind (Keeps-proxy_at a) λ proxy. Runs-bind Keeps-get_store λ st.
      Runs-if (status_eq proxy.status uninit)
        (λ e. Runs-bind (send-Keeps _) λ s. on_success-Keeps s _ (
          Runs-bind
            (Runs-bind (Keeps-proxy_at a) λ p. Keeps-put_proxy a (record p { status = logining }))
            λ x. Keeps-pure {a = success}))
        (λ e. Keeps-pure)

  add_room-Keeps : (a room_id r : ℕ) → Keeps Sound (add_room net a room_id r)
  unfolding add_room on_create
  add_room-Keeps a room_id r = Runs-bind (Keeps-proxy_at a) λ proxy.
      Runs-option (lookup room_id proxy.rooms)
        (λ e. Runs-bind (Keeps-put_proxy a _) λ x.
          Runs-bind
            (Runs-bind (Keeps-room_at r) λ room. Keeps-put_room r (record room { proxy = some a }))
            λ y. Keeps-pure {a = success})
        (λ q e. Keeps-pure)

  pub proxy_link_room-Keeps : (a r : ℕ) → Keeps Sound (proxy_link_room net a r)
  unfolding proxy_link_room
  proxy_link_room-Keeps a r = Runs-bind (Keeps-proxy_at a) λ proxy.
      Runs-if (status_eq proxy.status online)
        (λ e. Runs-bind (Keeps-room_at r) λ room.
          Runs-bind (add_room-Keeps a room.id r)
            λ added. Runs-status added (Runs-bind Keeps-get_store λ st. send-Keeps _) Keeps-pure)
        (λ e.
          Runs-bind
            (Keeps-put_proxy a (record proxy { waits_rooms = proxy.waits_rooms ++ (r ∷ []) }))
            λ x. Keeps-pure {a = success})

  del_room-Keeps : (a room_id r : ℕ) → Keeps Sound (del_room net a room_id r)
  unfolding del_room
  del_room-Keeps a room_id r = Runs-bind (Keeps-proxy_at a) λ proxy.
      Runs-option (lookup room_id proxy.rooms) (λ e. Keeps-pure)
        (λ q e. Runs-bind (Keeps-put_proxy a _) λ x.
          Runs-bind (on_destory-Keeps r)
            λ y. Keeps-pure {a = (success, behind room_id proxy.rooms)})

  pub proxy_unlink_room-Keeps : (a r : ℕ) → Keeps Sound (proxy_unlink_room net a r)
  unfolding proxy_unlink_room
  proxy_unlink_room-Keeps a r = Runs-bind (Keeps-room_at r) λ room.
      Runs-bind (del_room-Keeps a room.id r) λ deleted.
        Runs-status deleted.0
          (Runs-bind (Keeps-proxy_at a) λ proxy.
            Runs-bind (Keeps-room_at r) λ room'. Runs-bind Keeps-get_store λ st. send-Keeps _)
          Keeps-pure

  pub get_room_size-Keeps : (a : ℕ) → Keeps Sound (get_room_size net a)
  unfolding get_room_size
  get_room_size-Keeps a = Runs-bind (Keeps-proxy_at a) λ proxy. Keeps-pure

  pub unlink_screen_user-Keeps : (s p : ℕ) → Keeps Sound (unlink_screen_user net (some s) (some p))
  unfolding unlink_screen_user
  unlink_screen_user-Keeps s p =
      Runs-bind (Runs-weaken (λ st v. v) (Runs-user_at p) (λ u st v. v.0)) λ u.
        Runs-option u.title_room (λ e. Keeps-pure)
          λ r e. Runs-bind (screen_disconnect_user-Keeps s) λ x.
            Runs-bind (Runs-bind (Keeps-room_at r) λ room. Keeps-pure {a = room.proxy}) λ proxy.
              Runs-option proxy (λ e'. Keeps-pure)
                λ a e'.
                  Runs-bind
                    (unlink_room_user-Keeps net Sound
                      (λ st l v. record { linked = v.linked; free = v.free; housed = v.housed }) a
                      (some p))
                    λ y. Keeps-pure {a = tt}

count_users-Keeps : (rooms : List ℕ) (user_count : ℕ) → Keeps Sound (count_users rooms user_count)
unfolding count_users increase_count
count_users-Keeps [] user_count = record { run = λ st v. v }
count_users-Keeps (r ∷ rs) user_count = record {
  run = λ st v.
      (Runs-bind (with_room_lock-Keeps r _ (Runs-bind (Keeps-room_at r) λ room. Keeps-pure))
          λ count. count_users-Keeps rs count).run
        st v;
}

show_rooms-Keeps : (rooms : List ℕ) (offset first : ℕ) → Keeps Sound (show_rooms rooms offset first)
unfolding show_rooms room_on_show_page
show_rooms-Keeps [] offset first = record { run = λ st v. v }
show_rooms-Keeps (r ∷ rs) offset first = record {
  run = λ st v.
      (Runs-bind (with_room_lock-Keeps r _ (Runs-bind (Keeps-room_at r) λ room. Keeps-pure))
          λ shown.
            Runs-status shown.status
              (Runs-bind (show_rooms-Keeps rs shown.offset first) λ later. Keeps-pure)
              Keeps-pure).run
        st v;
}

on_show_page-Keeps : (w : WatchsList) → Keeps Sound (on_show_page w)
unfolding on_show_page
on_show_page-Keeps w = Runs-bind (show_rooms-Keeps w.rooms 0 _) λ messages. Keeps-pure

pub next_page-Keeps : (w : WatchsList) → Keeps Sound (next_page w)
unfolding next_page page_count
next_page-Keeps w =
    Runs-if w.watching
      (λ e.
        Runs-bind (Runs-bind (count_users-Keeps w.rooms 0) λ count. Keeps-pure)
          λ pages. Runs-bind (on_show_page-Keeps _) λ messages. Keeps-pure)
      (λ e. Keeps-pure)

pub prev_page-Keeps : (w : WatchsList) → Keeps Sound (prev_page w)
unfolding prev_page
prev_page-Keeps w =
    Runs-if w.watching (λ e. Runs-bind (on_show_page-Keeps _) λ messages. Keeps-pure)
      (λ e. Keeps-pure)
