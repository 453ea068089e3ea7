-- ===== src/Connections.antt =====
-- The table of the connected proxies, their sockets, and the pipe to the thread of the events
-- (Monitor/Monitor/ScreenMgr.cpp, with DiscProxyScene.cpp).
pub mod Events
pub mod Linking
pub mod Evicting
pub mod Examples
use real_time_monitor_agent.Base.{
  ℕ, suc, ◌+◌, ◌%◌, ◌^◌, ◌≡◌, List, [], ◌∷◌, ◌++◌, Option, none, some, Bool, true, false, ◌==◌, ltb,
  if◌then◌else◌,
}
use real_time_monitor_agent.Base.OrdMap.{lookup, insert, erase}
use real_time_monitor_agent.Store.{
  Store, AvsProxy, uninit, Sent, M, Outcome, ok, PjStatus, success, einval, eexists, enotfound,
  failed, update, room_at,
}
use real_time_monitor_agent.Proxies.{
  proxy_login, proxy_link_room, proxy_unlink_room, proxy_destory, get_room_size,
}
use real_time_monitor_agent.Sockets.{Answers, Selected, Opened, open_tcp_clientport}

-- A pointer to an event: null, to one that is registered, or to one that was freed.
pub data Event : Type 0 where
  null live dangling : Event

-- `sock_` of a proxy, `none` when it is INVALID_SOCKET, and `tcp_ev_`.
pub record Link : Type 0 where
  pub sock : Option ℕ
  pub tcp_ev : Event

-- The function objects whose pointers go through the pipe, with the proxy that is bound.
pub data Piped : Type 0 where
  conn_proxy disc_proxy : ℕ → Piped

-- `links` holds the part of each proxy that the store leaves out; `scenes` are the DiscProxyScenes
-- that the thread pool has still to run; `next_proxy` is the next address of a new proxy.
pub record ProxyTable : Type 0 where
  pub store : Store
  pub linked_proxys : List (ℕ × ℕ)
  pub links : ℕ → Option Link
  pub open_socks : List ℕ
  pub pipe : List Piped
  pub scenes : List ℕ
  pub next_proxy : ℕ

-- A socket is no longer open.
abbrev pub remove : ℕ → List ℕ → List ℕ
remove s [] = []
remove s (x ∷ xs) = if s == x then remove s xs else x ∷ remove s xs

-- As the outcome of the methods of the shared objects.
pub data Ended (A : Type 0) : Type 0 where
  returns : A → ProxyTable → Ended A
  blocked : Ended A
  crashed : Ended A
  unfinished : Ended A

abbrev pub C : Type 0 → Type 0
C A = ProxyTable → Ended A

infixl 5 ◌>>=◌ ◌>>◌
abbrev pub ◌>>=◌ : {A B : Type 0} → C A → (A → C B) → C B
◌>>=◌ m f t = elim (m t) [
  | returns a t' ↦ f a t'
  | blocked ↦ blocked
  | crashed ↦ crashed
  | unfinished ↦ unfinished
]

abbrev pub ◌>>◌ : {A B : Type 0} → C A → C B → C B
m >> k = m >>= λ _. k

abbrev pub return : {A : Type 0} → A → C A
return a t = returns a t

-- A method of a shared object.
abbrev pub on_store : {A : Type 0} → M A → C A
on_store m t = elim (m t.store) [
  | ok a st ↦ returns a (record t { store = st })
  | Outcome.deadlock ↦ blocked
  | Outcome.fault ↦ crashed
  | Outcome.stuck ↦ unfinished
]

-- The proxy behind a pointer, which is read.
abbrev pub proxy_behind : ℕ → C AvsProxy
proxy_behind a t = elim (t.store.proxies a) [ some proxy ↦ returns proxy t | none ↦ crashed ]

abbrev pub link_behind : ℕ → C Link
link_behind a t = elim (t.links a) [ some link ↦ returns link t | none ↦ crashed ]

-- `RETURN_VAL_IF_FAIL(status == PJ_SUCCESS, status)`.
abbrev pub after_success : PjStatus → C PjStatus → C PjStatus
after_success success rest = rest
after_success s rest = return s

-- pj_sock_send of a pointer to the pipe.
abbrev pub to_pipe : Piped → C (Unit {0})
to_pipe x t = returns tt (record t { pipe = t.pipe ++ (x ∷ []) })

-- The keys are 16-bit and unsigned.
abbrev pub rank16 : ℕ → ℕ
rank16 n = n

unfoldable pub find_proxy : ℕ → C (PjStatus × Option ℕ)
find_proxy id t = elim (lookup id t.linked_proxys) [
  | none ↦ returns (einval, none) t
  | some a ↦ returns (success, some a) t
]

-- `new AvsProxy` at the next address.
abbrev pub new_proxy : ℕ → ℕ → ProxyTable → ProxyTable
new_proxy id sock t = record t {
  store = record t.store {
    proxies =
        update t.store.proxies t.next_proxy
          (some (record { status = uninit; id = id; rooms = []; waits_rooms = [] }));
  };
  links = update t.links t.next_proxy (some (record { sock = some sock; tcp_ev = null }));
  linked_proxys = insert rank16 id t.next_proxy t.linked_proxys;
  next_proxy = suc t.next_proxy;
}

-- With the new proxy.
unfoldable pub add_proxy : ℕ → ℕ → C (PjStatus × Option ℕ)
add_proxy id sock t = elim (lookup id t.linked_proxys) [
  | some a ↦ returns (einval, none) t
  | none ↦
      (do to_pipe (conn_proxy t.next_proxy); return (success, some t.next_proxy))
        (new_proxy id sock t)
]

-- Of a proxy that is not null.
unfoldable pub del_proxy : ℕ → C PjStatus
del_proxy a = do
  proxy ← proxy_behind a
  (λ t. elim (lookup proxy.id t.linked_proxys) [
    | none ↦ returns einval t
    | some b ↦
        (do to_pipe (disc_proxy a); return success)
          (record t { linked_proxys = erase proxy.id t.linked_proxys })
  ])

-- The loop over the entries.
unfoldable pub disc_all : List (ℕ × ℕ) → List Piped
disc_all [] = []
disc_all ((id, a) ∷ m) = disc_proxy a ∷ disc_all m

unfoldable pub del_all_proxys : C (Unit {0})
unfolding disc_all
del_all_proxys t =
    returns tt (record t { pipe = t.pipe ++ disc_all t.linked_proxys; linked_proxys = [] })
