-- ===== src/Dialog/Tables.antt =====
-- What the calls of the ScreenMgr do to the store behind the table of the proxies
-- (Monitor/Monitor/ScreenMgr.cpp).
use real_time_monitor_agent.Base.{
  ℕ, List, Option, none, some, Bool, true, false, ◌==◌, if◌then◌else◌,
}
use real_time_monitor_agent.Base.OrdMap.{lookup}
use real_time_monitor_agent.Store.{
  Sent, M, Outcome, ok, deadlock, fault, stuck, PjStatus, success, einval, eexists, enotfound,
  failed,
}
use real_time_monitor_agent.Store.Keeps.{Keeps, Returned, Keeps-room_at}
use real_time_monitor_agent.Sockets.{Answers, Selected, open_tcp_clientport}
use real_time_monitor_agent.Reply.{Memory, Parsed, parsed, overrun, undefined, parse_http_response}
use real_time_monitor_agent.Connections.{
  ProxyTable, C, Ended, returns, blocked, crashed, unfinished, ◌>>=◌, return, on_store,
  proxy_behind, after_success, find_proxy, add_proxy, del_proxy, del_all_proxys,
}
use real_time_monitor_agent.Connections.Events.{
  default_param, link_to, link_room, on_unlink_room, on_link_room,
}
use real_time_monitor_agent.Wall.Invariant.{Sound}
use real_time_monitor_agent.Dialog.Methods.{
  proxy_login-Keeps, proxy_link_room-Keeps, proxy_unlink_room-Keeps, get_room_size-Keeps,
}

-- The store is sound behind a call that returns.
abbrev pub Ends : {A : Type 0} → Ended A → Type 0
Ends o = elim o [
  | returns a t ↦ Sound t.store
  | blocked ↦ Unit
  | crashed ↦ Unit
  | unfinished ↦ Unit
]

pub record Safe {A : Type 0} (m : C A) : Type 0 where
  pub run : (t : ProxyTable) → Sound t.store → Ends (m t)

Ends-bind :
    {A B : Type 0} (o : Ended A) (f : A → C B)
    → Ends o
    → ((a : A) → Safe (f a))
    → Ends (elim o [
      | returns a t' ↦ f a t'
      | blocked ↦ blocked
      | crashed ↦ crashed
      | unfinished ↦ unfinished
    ])
Ends-bind (returns a t) f v k = (k a).run t v
Ends-bind blocked f v k = tt
Ends-bind crashed f v k = tt
Ends-bind unfinished f v k = tt

Safe-bind :
    {A B : Type 0} {m : C A} {f : A → C B} → Safe m → ((a : A) → Safe (f a)) → Safe (m >>= f)
Safe-bind {A} {B} {m} {f} first rest = record {
  run = λ t v. Ends-bind (m t) f (first.run t v) rest;
}

Safe-return : {A : Type 0} {a : A} → Safe (return a)
Safe-return = record { run = λ t v. v }

pub Safe-on_store : {A : Type 0} {m : M A} → Keeps Sound m → Safe (on_store m)
Safe-on_store {A} {m} keep = record { run = λ t v. from t (m t.store) (keep.run t.store v) }
  where
    from :
        (t : ProxyTable) (o : Outcome A)
        → Returned (λ a st. Sound st) o
        → Ends (elim o as (λ x. Ended A) [
          | ok a st ↦ returns a (record t { store = st })
          | deadlock ↦ blocked
          | fault ↦ crashed
          | stuck ↦ unfinished
        ])
    from t (ok a st) v = v
    from t deadlock v = tt
    from t fault v = tt
    from t stuck v = tt

Safe-option :
    {A V : Type 0} {n : C A} {s : V → C A} (o : Option V)
    → Safe n
    → ((v : V) → Safe (s v))
    → Safe (elim o [ none ↦ n | some v ↦ s v ])
Safe-option none safe safes = safe
Safe-option (some v) safe safes = safes v

Safe-after_success : {m : C PjStatus} (s : PjStatus) → Safe m → Safe (after_success s m)
Safe-after_success success safe = safe
Safe-after_success einval safe = Safe-return
Safe-after_success eexists safe = Safe-return
Safe-after_success enotfound safe = Safe-return
Safe-after_success failed safe = Safe-return

Safe-if : {A : Type 0} {m n : C A} (b : Bool) → Safe m → Safe n → Safe (if b then m else n)
Safe-if true safe safe' = safe
Safe-if false safe safe' = safe'

Safe-read :
    {A V : Type 0} {n : C A} {s : V → C A} (get : ProxyTable → Option V)
    → Safe n
    → ((v : V) → Safe (s v))
    → Safe (λ t. elim (get t) [ none ↦ n t | some v ↦ s v t ])
Safe-read {A} {V} {n} {s} get safe safes = record { run = λ t v. from t v (get t) }
  where
    from :
        (t : ProxyTable)
        → Sound t.store
        → (o : Option V) → Ends (elim o as (λ x. Ended A) [ none ↦ n t | some v ↦ s v t ])
    from t v none = safe.run t v
    from t v (some x) = (safes x).run t v

find_proxy-Safe : (id : ℕ) → Safe (find_proxy id)
unfolding find_proxy
find_proxy-Safe id = Safe-read (λ t. lookup id t.linked_proxys) Safe-return λ a. Safe-return

add_proxy-Safe : (id sock : ℕ) → Safe (add_proxy id sock)
unfolding add_proxy
add_proxy-Safe id sock =
    Safe-read (λ t. lookup id t.linked_proxys)
      (record { run = λ t v. record { linked = v.linked; free = v.free; housed = v.housed } })
      λ a. Safe-return

proxy_behind-Safe : (a : ℕ) → Safe (proxy_behind a)
proxy_behind-Safe a =
    Safe-read (λ t. t.store.proxies a) (record { run = λ t v. tt }) λ proxy. Safe-return

del_proxy-Safe : (a : ℕ) → Safe (del_proxy a)
unfolding del_proxy
del_proxy-Safe a = Safe-bind (proxy_behind-Safe a) λ proxy.
    Safe-read (λ t. lookup proxy.id t.linked_proxys) Safe-return λ b. record { run = λ t v. v }

pub del_all_proxys-Safe : Safe del_all_proxys
unfolding del_all_proxys
del_all_proxys-Safe = record { run = λ t v. v }

module _ (net : List Sent → Sent → PjStatus) where
  link_to-Safe : (a r : ℕ) → Safe (link_to net a r)
  unfolding link_to
  link_to-Safe a r = Safe-bind (Safe-on_store (proxy_link_room-Keeps net a r)) by_status
    where
      by_status :
          (s : PjStatus)
          → Safe (elim s as (λ x. C PjStatus) [ eexists ↦ return success | s' ↦ return s' ])
      by_status eexists = Safe-return
      by_status success = Safe-return
      by_status einval = Safe-return
      by_status enotfound = Safe-return
      by_status failed = Safe-return

  link_room-Safe :
      (answers : Answers) (selected : Selected) (id r : ℕ)
      → Safe (link_room net answers selected id r)
  unfolding link_room
  link_room-Safe answers selected id r = Safe-bind (find_proxy-Safe id) λ found.
      Safe-option found.1
        (record {
          run = λ t v.
              let o = open_tcp_clientport answers selected t.open_socks in
              (Safe-after_success o.status (
                  Safe-bind (add_proxy-Safe id answers.sock) λ added.
                    Safe-option added.1 Safe-return λ a.
                      Safe-bind (Safe-on_store (proxy_login-Keeps net a))
                        λ status. Safe-after_success status (link_to-Safe a r))).run
                (record t { open_socks = o.open_socks }) v;
        })
        λ a. link_to-Safe a r

  pub on_unlink_room-Safe : (room : Option ℕ) → Safe (on_unlink_room net room)
  unfolding on_unlink_room
  on_unlink_room-Safe none = Safe-return
  on_unlink_room-Safe (some r) = Safe-bind (Safe-on_store (Keeps-room_at r)) λ room.
      Safe-option room.proxy Safe-return λ a.
        Safe-bind (Safe-on_store (proxy_unlink_room-Keeps net a r)) λ status.
          Safe-after_success status (
            Safe-bind (Safe-on_store (get_room_size-Keeps net a)) λ size.
              Safe-if (size == 0) (Safe-bind (del_proxy-Safe a) λ x. Safe-return {a = success})
                Safe-return)

  pub on_link_room-Safe :
      (answers : Answers) (selected : Selected) (r : ℕ) (title : Bool) (size : ℕ) (memory : Memory)
      → Safe (on_link_room net answers selected r title size memory)
  unfolding on_link_room
  on_link_room-Safe answers selected r title size memory =
      by_reply (parse_http_response default_param size memory)
    where
      by_status :
          (s : PjStatus)
          → Safe (elim s as (λ x. C (PjStatus × Bool)) [
            | success ↦ return (success, false)
            | s' ↦ return (s', title)
          ])
      by_status success = Safe-return
      by_status einval = Safe-return
      by_status eexists = Safe-return
      by_status enotfound = Safe-return
      by_status failed = Safe-return

      by_reply :
          (p : Parsed)
          → Safe (elim p as (λ x. C (PjStatus × Bool)) [
            | parsed parsed_status q ↦
                after_success parsed_status (link_room net answers selected q.proxy_id r)
                >>= λ status. elim status as (λ x. C (PjStatus × Bool)) [
                  | success ↦ return (success, false)
                  | s' ↦ return (s', title)
                ]
            | overrun ↦ (λ t. crashed)
            | undefined ↦ (λ t. crashed)
          ])
      by_reply (parsed parsed_status q) =
          Safe-bind
            (Safe-after_success parsed_status (link_room-Safe answers selected q.proxy_id r))
            by_status
      by_reply overrun = record { run = λ t v. tt }
      by_reply undefined = record { run = λ t v. tt }
