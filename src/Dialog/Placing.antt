-- ===== src/Dialog/Placing.antt =====
-- The messages of a page, and where the main window puts the users (Monitor/Monitor/MonitorDlg.cpp).

use real_time_monitor_agent.Base.{
  ℕ, suc, ◌+◌, ◌≤◌, ◌<◌, ◌≡◌, ◌≢◌, refl, ap, ◌∙◌, List, [], ◌∷◌, ◌++◌, none, some, arith, length,
  replicate,
}
use real_time_monitor_agent.Store.{
  Store, User, TitleRoom, AvsProxy, Sent, ok, PjStatus, maximal_screen_num,
}
use real_time_monitor_agent.Users.Consistent.{attached, screen_connect_user-attached}
use real_time_monitor_agent.Wall.{link_screen_user}
use real_time_monitor_agent.Wall.Shows.{
  link_user_packet, link_room_user-sends, leave_goes_on, clear_goes_on, enter,
}
use real_time_monitor_agent.Dialog.{Param, watch_room_user, Main, ran, World}
use real_time_monitor_agent.Dialog.Running.{Act, piped, act, acts}

-- A user on no screen, whose room has a proxy that exists.
pub record Waiting (p : ℕ) (st : Store) : Type 0 where
  pub user : User
  pub lives : st.users p ≡ some user
  pub off : user.screen ≡ none
  pub room_at : ℕ
  pub in_room : user.title_room ≡ some room_at
  pub room : TitleRoom
  pub here : st.rooms room_at ≡ some room
  pub proxy_at : ℕ
  pub served : room.proxy ≡ some proxy_at
  pub proxy : AvsProxy
  pub connected : st.proxies proxy_at ≡ some proxy

abbrev pub AllWaiting : List (ℕ × ℕ) → Store → Type 0
AllWaiting [] st = Unit
AllWaiting ((k, p) ∷ users) st = Waiting p st × AllWaiting users st

-- The users stand at different addresses.
abbrev pub NotAmong : ℕ → List (ℕ × ℕ) → Type 0
NotAmong p [] = Unit
NotAmong p ((k, q) ∷ users) = (p ≢ q) × NotAmong p users

abbrev pub Apart : List (ℕ × ℕ) → Type 0
Apart [] = Unit
Apart ((k, p) ∷ users) = NotAmong p users × Apart users

-- The screens from `n` on show the users, in order.
abbrev pub Placed : ℕ → List (ℕ × ℕ) → Store → Type 0
Placed n [] st = Unit
Placed n ((k, p) ∷ users) st = ((st.screens n).user ≡ some p) × Placed (suc n) users st

module _ (net : List Sent → Sent → PjStatus) where
  -- A user on no screen comes onto one that shows no user.
  abbrev put_on : (n p : ℕ) (st : Store) → Waiting p st → Store
  put_on n p st v =
      attached n p v.user (record st {
        sent = st.sent ++ (link_user_packet v.proxy_at v.proxy st v.room v.user ∷ []);
      })

  link_screen_user_idle :
      (n p : ℕ) (st : Store) (v : Waiting p st)
      → n < maximal_screen_num
      → (st.screens n).user ≡ none
      → link_screen_user net n (some p) st ≡ ok tt (put_on n p st v)
  link_screen_user_idle n p st v small idle =
      enter net n p v.room_at v.proxy_at v.user v.room st small v.lives v.in_room v.here v.served
      ∙ leave_goes_on net n p v.user _ st v.lives v.off
      ∙ clear_goes_on net n p _ st idle
      ∙ ground (
        arith,
        link_room_user-sends net v.proxy_at p v.room_at v.user v.room v.proxy st v.connected v.lives
            v.in_room v.here,
        screen_connect_user-attached n p v.user
            (record st {
              sent = st.sent ++ (link_user_packet v.proxy_at v.proxy st v.room v.user ∷ []);
            })
            v.lives,
      )

  put_on-Waiting :
      (n p q : ℕ) (st : Store) (v : Waiting p st)
      → p ≢ q
      → Waiting q st
      → Waiting q (put_on n p st v)
  put_on-Waiting n p q st v ne w = record {
    user = w.user;
    lives = ground (arith, w.lives, ne);
    off = w.off;
    room_at = w.room_at;
    in_room = w.in_room;
    room = w.room;
    here = w.here;
    proxy_at = w.proxy_at;
    served = w.served;
    proxy = w.proxy;
    connected = w.connected;
  }

  put_on-AllWaiting :
      (n p : ℕ) (users : List (ℕ × ℕ)) (st : Store) (v : Waiting p st)
      → NotAmong p users
      → AllWaiting users st
      → AllWaiting users (put_on n p st v)
  put_on-AllWaiting n p [] st v ne w = tt
  put_on-AllWaiting n p ((k, q) ∷ users) st v (ne, nes) (w, ws) =
      (put_on-Waiting n p q st v ne w, put_on-AllWaiting n p users st v nes ws)

-- The messages for users on the screens from `n` on.
abbrev pub watch_params : ℕ → List (ℕ × ℕ) → List Param
watch_params n [] = []
watch_params n ((k, p) ∷ users) = watch_room_user (some p) n ∷ watch_params (suc n) users

-- The program with another store and another pipe.
abbrev pub with_pipe : Main → Store → List Param → Main
with_pipe w st params = record w { table = record w.table { store = st }; pipe = params }

module _ (net : List Sent → Sent → PjStatus) (world : World) (fuel : ℕ) where
  places_first :
      (n p : ℕ) (rest : List Param) (w : Main) (v : Waiting p w.table.store)
      → n < maximal_screen_num
      → (w.table.store.screens n).user ≡ none
      → w.pipe ≡ watch_room_user (some p) n ∷ rest
      → act net (piped world fuel) w ≡ ran (with_pipe w (put_on net n p w.table.store v) rest)
  unfolding act
  places_first n p rest w v small idle waits =
      ground (arith, waits, link_screen_user_idle net n p w.table.store v small idle)

  pub acts_first :
      (x : Act) (xs : List Act) (w w₁ : Main) (o : Main)
      → act net x w ≡ ran w₁
      → acts net xs w₁ ≡ ran o
      → acts net (x ∷ xs) w ≡ ran o
  unfolding acts
  acts_first x xs w w₁ o e e' = ground (arith, e, e')

  -- The main window handles the messages of a page one after the other.
  pub places :
      (n : ℕ) (users : List (ℕ × ℕ)) (w : Main)
      → n + length users ≤ maximal_screen_num
      → ((s : ℕ) → n ≤ s → s < maximal_screen_num → (w.table.store.screens s).user ≡ none)
      → AllWaiting users w.table.store
      → Apart users
      → w.pipe ≡ watch_params n users
      → (st' : Store) × (acts net (replicate (length users) (piped world fuel)) w
          ≡ ran (with_pipe w st' []))
        × Placed n users st'
        × ((s : ℕ) → s < n → st'.screens s ≡ w.table.store.screens s)
  places n [] w fits idle v ne waits =
      (w.table.store, unfold acts in ground (arith, waits), tt, λ s x. refl)
  places n ((k, p) ∷ users) w fits idle (v, vs) (ne, nes) waits =
      let st₁ : Store = put_on net n p w.table.store v in
      let w₁ : Main = with_pipe w st₁ (watch_params (suc n) users) in
      let (st', e, shown, kept) =
        places (suc n) users w₁ (omega arith) (λ s low high. ground (arith, idle s))
          (put_on-AllWaiting net n p users w.table.store v ne vs) nes refl in
      (
        st',
        acts_first (piped world fuel) (replicate (length users) (piped world fuel)) w w₁
            (with_pipe w st' [])
            (places_first n p (watch_params (suc n) users) w v (omega arith)
              (idle n (omega arith) (omega arith)) waits)
            e,
        (ap (λ x. x.user) (kept n (omega arith)) ∙ ground arith, shown),
        λ s x. kept s (omega arith) ∙ ground arith,
      )
