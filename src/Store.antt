-- ===== src/Store.antt =====
-- The objects that the threads of the program share: users, rooms, proxies and screens behind their
-- pointers, the two index maps of Com.cpp, what was sent, and the monad of the methods.
-- A pointer is a number and a null pointer is `none`; that to a screen is its index in `screens_`.
pub mod Keeps
pub mod Reaches
use real_time_monitor_agent.Base.{
  ℕ, suc, ◌-◌, ◌^◌, ◌≡◌, List, [], ◌∷◌, ◌++◌, Option, none, some, Bool, true, false, ◌==◌,
  if◌then◌else◌,
}
use real_time_monitor_agent.Wire.Requests.{Request, Nat}

-- `pj_status_t`, as far as the program tells the codes apart. `failed`: another code, of a library.
pub data PjStatus : Type 0 where
  success einval eexists enotfound failed : PjStatus

-- `INVALID_SCREEN_INDEX` as a `pj_uint32_t`.
abbrev pub invalid_screen_index : ℕ
invalid_screen_index = 2 ^ 32 - 1

abbrev pub maximal_screen_num : ℕ
maximal_screen_num = 15

-- `User` of TitleRoom.h, without its part that is a `Node` of the tree control.
pub record User : Type 0 where
  pub user_id : ℕ
  pub mic_id : ℕ
  pub screen : Option ℕ
  pub screen_idx : ℕ
  pub title_room : Option ℕ
  pub audio_ssrc : ℕ
  pub video_ssrc : ℕ

-- `TitleRoom` of TitleRoom.h, likewise; `locked` is the state of `room_lock_`.
pub record TitleRoom : Type 0 where
  pub id : ℕ
  pub proxy : Option ℕ
  pub users : List (ℕ × ℕ)
  pub locked : Bool

-- `user_` and `media_active_` of a screen. Its `index_` is its place in `screens_`.
pub record Screen : Type 0 where
  pub user : Option ℕ
  pub media_active : Bool

-- The states of the login of a proxy, AvsProxy.h.
pub data AvsProxyStatus : Type 0 where
  uninit logining nating online : AvsProxyStatus

-- `AvsProxy` of AvsProxy.h; its read buffer is that of Framing.
pub record AvsProxy : Type 0 where
  pub status : AvsProxyStatus
  pub id : ℕ
  pub rooms : List (ℕ × ℕ)
  pub waits_rooms : List ℕ

-- `g_client_config`, as far as the requests carry it; `local_ip` is the address that
-- `pj_inet_aton` makes of the text.
pub record Config : Type 0 where
  pub client_id : ℕ
  pub local_ip : ℕ
  pub local_media_port : ℕ

-- A packet handed to the network: over the TCP socket of a proxy, or as a datagram.
pub data Sent : Type 0 where
  tcp : ℕ → Request → Sent
  udp : ℕ → Nat → Sent

pub record Store : Type 0 where
  pub config : Config
  pub users : ℕ → Option User
  pub rooms : ℕ → Option TitleRoom
  pub proxies : ℕ → Option AvsProxy
  pub screens : ℕ → Screen
  pub audio_map : ℕ → Option ℕ
  pub video_map : ℕ → Option ℕ
  pub fresh : ℕ
  pub sent : List Sent

-- `deadlock`: a thread locks a mutex that it holds. `fault`: it follows a null or dangling pointer
-- or leaves an array. `stuck`: the fuel of a loop ran out.
pub data Outcome (A : Type 0) : Type 0 where
  ok : A → Store → Outcome A
  deadlock : Outcome A
  fault : Outcome A
  stuck : Outcome A

abbrev pub M : Type 0 → Type 0
M A = Store → Outcome A

abbrev pub pure : {A : Type 0} → A → M A
pure a st = ok a st

infixl 5 ◌>>=◌ ◌>>◌
abbrev pub ◌>>=◌ : {A B : Type 0} → M A → (A → M B) → M B
◌>>=◌ m f st = elim (m st) [
  | ok a st' ↦ f a st'
  | deadlock ↦ deadlock
  | fault ↦ fault
  | stuck ↦ stuck
]

abbrev pub ◌>>◌ : {A B : Type 0} → M A → M B → M B
m >> k = m >>= λ _. k

-- A cell of a heap or an array set anew.
abbrev pub update {ℓ} : {V : Type ℓ} → (ℕ → V) → ℕ → V → ℕ → V
update f p v q = if p == q then v else f q

abbrev pub user_at : ℕ → M User
user_at p st = elim (st.users p) [ some u ↦ ok u st | none ↦ fault ]

abbrev pub put_user : ℕ → User → M (Unit {0})
put_user p u st = ok tt (record st { users = update st.users p (some u) })

abbrev pub room_at : ℕ → M TitleRoom
room_at r st = elim (st.rooms r) [ some room ↦ ok room st | none ↦ fault ]

abbrev pub put_room : ℕ → TitleRoom → M (Unit {0})
put_room r room st = ok tt (record st { rooms = update st.rooms r (some room) })

abbrev pub proxy_at : ℕ → M AvsProxy
proxy_at a st = elim (st.proxies a) [ some proxy ↦ ok proxy st | none ↦ fault ]

abbrev pub put_proxy : ℕ → AvsProxy → M (Unit {0})
put_proxy a proxy st = ok tt (record st { proxies = update st.proxies a (some proxy) })

abbrev pub screen_at : ℕ → M Screen
screen_at s st = ok (st.screens s) st

abbrev pub put_screen : ℕ → Screen → M (Unit {0})
put_screen s screen st = ok tt (record st { screens = update st.screens s screen })
