-- ===== src/Dialog/Paging.antt =====
-- A key that shows the next page, from the key to the screens (Monitor/Monitor/MonitorDlg.cpp,
-- WatchsList.cpp and ScreenMgr.cpp).
use real_time_monitor_agent.Base.{
  ℕ, ◌+◌, ◌-◌, ◌*◌, ◌^◌, ◌<◌, ◌≡◌, ◌≢◌, refl, sym, ap, ◌∙◌, List, [], ◌∷◌, ◌++◌, Option, none, some,
  true, inl, inr, arith, Option-cases, length, replicate, take, drop, length-take,
}
use real_time_monitor_agent.Store.{
  Store, User, TitleRoom, AvsProxy, Sent, ok, PjStatus, maximal_screen_num,
}
use real_time_monitor_agent.Wall.{clean_screens}
use real_time_monitor_agent.Wall.Invariant.{Sound}
use real_time_monitor_agent.Wall.Emptied.{Stays, clean_screens-Stays}
use real_time_monitor_agent.Watch.{WatchsList, pages_of, min_of, next_page}
use real_time_monitor_agent.Watch.Window.{numbered}
use real_time_monitor_agent.Watch.Pages.{HasUsers, all_of, page_messages, next_page-shows}
use real_time_monitor_agent.Traverse.{Post, page_posts, show_next}
use real_time_monitor_agent.Dialog.{Param, clean_screen, Main, ran, World, right_arrow, mail}
use real_time_monitor_agent.Dialog.Running.{Act, key, piped, act, acts}
use real_time_monitor_agent.Dialog.Placing.{
  Waiting, AllWaiting, Apart, Placed, watch_params, with_pipe, acts_first, places,
}

-- A user on one of the fifteen screens or on none, whose room has a proxy that exists.
pub record Watchable (p : ℕ) (st : Store) : Type 0 where
  pub user : User
  pub lives : st.users p ≡ some user
  pub on_wall : (s : ℕ) → user.screen ≡ some s → s < maximal_screen_num
  pub room_at : ℕ
  pub in_room : user.title_room ≡ some room_at
  pub room : TitleRoom
  pub here : st.rooms room_at ≡ some room
  pub proxy_at : ℕ
  pub served : room.proxy ≡ some proxy_at
  pub proxy : AvsProxy
  pub connected : st.proxies proxy_at ≡ some proxy

abbrev pub AllWatchable : List (ℕ × ℕ) → Store → Type 0
AllWatchable [] st = Unit
AllWatchable ((k, p) ∷ users) st = Watchable p st × AllWatchable users st

module _ (st st' : Store) (v : Stays st st')
    (off : (p s : ℕ) (u : User)
      → st'.users p ≡ some u
      → s < maximal_screen_num
      → u.screen ≢ some s) where
  cleaned-Waiting : (p : ℕ) → Watchable p st → Waiting p st'
  cleaned-Waiting p w =
      let (u, h, room, place) = v.user p w.user w.lives in
      let nowhere : u.screen ≡ none = elim place [
        | inr e ↦ e
        | inl same ↦ elim (Option-cases u.screen) [
          | inl e ↦ e
          | inr (s, on) ↦ absurd (off p s u h (w.on_wall s (sym same ∙ on)) on)
        ]
      ] in
      record {
        user = u;
        lives = h;
        off = nowhere;
        room_at = w.room_at;
        in_room = room ∙ w.in_room;
        room = w.room;
        here = ap (λ f. f w.room_at) v.rooms ∙ w.here;
        proxy_at = w.proxy_at;
        served = w.served;
        proxy = w.proxy;
        connected = ap (λ f. f w.proxy_at) v.proxies ∙ w.connected;
      }

  cleaned-AllWaiting : (users : List (ℕ × ℕ)) → AllWatchable users st → AllWaiting users st'
  cleaned-AllWaiting [] w = tt
  cleaned-AllWaiting ((k, p) ∷ users) (w, ws) = (cleaned-Waiting p w, cleaned-AllWaiting users ws)

mail-watch_params :
    (title : Option ℕ) (n : ℕ) (users : List (ℕ × ℕ))
    → mail title (page_posts (numbered n users)) ≡ watch_params n users
mail-watch_params title n [] = refl
mail-watch_params title n ((k, p) ∷ users) = ground (arith, mail-watch_params title (n + 1) users)

-- The page that NextPage goes to, and its users.
abbrev pub following : WatchsList → List (ℕ × ℕ) → ℕ
following list users = min_of (pages_of (length users)) (list.page + 1)

abbrev pub page_users : ℕ → List (ℕ × ℕ) → List (ℕ × ℕ)
page_users page users = take maximal_screen_num (drop (maximal_screen_num * (page - 1)) users)

module _ (net : List Sent → Sent → PjStatus) (world : World) (fuel : ℕ) where
  turns :
      (page : ℕ) (users : List (ℕ × ℕ)) (w : Main)
      → next_page w.watch.list w.table.store
        ≡ ok (record w.watch.list { page = page }, page_messages page users) w.table.store
      → w.pipe ≡ []
      → (v : Main) × (act net (key right_arrow) w ≡ ran v)
        × (v.table.store ≡ w.table.store)
        × (v.pipe ≡ clean_screen ∷ watch_params 0 (page_users page users))
  unfolding act
  turns page users w e empty =
      let list : WatchsList = record w.watch.list { page = page } in
      let sent : List Post = [] ++ page_posts (page_messages page users) in
      let title : Option ℕ = w.watch.title_ctl in
      (
        record w {
          table = record w.table { store = w.table.store };
          watch = record w.watch { store = w.table.store; list = list; posts = sent };
          pipe = w.pipe ++ mail title sent;
        },
        unfold show_next in ground (arith, e),
        refl,
        ap (λ l. l ++ mail title sent) empty
            ∙ ap (λ l. clean_screen ∷ l) (mail-watch_params title 0 (page_users page users)),
      )

  cleans_first :
      (rest : List Param) (st' : Store) (w : Main)
      → clean_screens w.table.store ≡ ok tt st'
      → w.pipe ≡ clean_screen ∷ rest
      → act net (piped world fuel) w ≡ ran (with_pipe w st' rest)
  unfolding act
  cleans_first rest st' w e waits = ground (arith, waits, e)

  -- A watched list with at least one and fewer than 2 ^ 32 - 15 users, that stands on any page but
  -- 4294967295. The right arrow is pressed with nothing in the pipe, and the main window handles the messages
  -- that this gives, one for each user of the following page (or of the last one) and one more. If users
  -- and screens are linked both ways, the rooms of the list are not locked, and the users of the page
  -- stand apart, each on one of the fifteen screens or on none and in a room whose proxy exists, then the
  -- screens from the first on show the users of the page, in order, and the pipe is empty again.
  pub right_arrow-Placed :
      (users : List (List (ℕ × ℕ))) (w : Main)
      → Sound w.table.store
      → HasUsers w.table.store w.watch.list.rooms users
      → w.watch.list.watching ≡ true
      → w.watch.list.page < 4294967295
      → 0 < length (all_of users)
      → length (all_of users) + maximal_screen_num < 2 ^ 32
      → AllWatchable
          (page_users (following w.watch.list (all_of users)) (all_of users))
          w.table.store
      → Apart (page_users (following w.watch.list (all_of users)) (all_of users))
      → w.pipe ≡ []
      → (w' : Main) × (acts net
            (key right_arrow
              ∷ (piped world fuel
                  ∷ replicate
                      (length (page_users (following w.watch.list (all_of users)) (all_of users)))
                      (piped world fuel)))
            w
          ≡ ran w')
        × Placed 0
            (page_users (following w.watch.list (all_of users)) (all_of users))
            w'.table.store
        × (w'.pipe ≡ [])
  right_arrow-Placed users w v has watching page some_users fits watchable ne empty =
      let number : ℕ = following w.watch.list (all_of users) in
      let chosen : List (ℕ × ℕ) = page_users number (all_of users) in
      let (page', e, same, all_pages) =
        next_page-shows w.watch.list users w.table.store has watching page some_users fits in
      let e' =
        e
        ∙ ap
            (λ n.
              ok (record w.watch.list { page = n }, page_messages n (all_of users)) w.table.store)
            same in
      let (u, turned, kept, waits) = turns number (all_of users) w e' empty in
      let (st', cleaned, stays, idle, off) = clean_screens-Stays w.table.store v in
      let u₁ : Main = with_pipe u st' (watch_params 0 chosen) in
      let first =
        cleans_first (watch_params 0 chosen) st' u (ap clean_screens kept ∙ cleaned) waits in
      let (st'', placed, shown, others) =
        places net world fuel 0 chosen u₁
          (omega (
            arith,
            length-take maximal_screen_num
                (drop (maximal_screen_num * (number - 1)) (all_of users)),
          ))
          (λ s low small. idle s small)
          (cleaned-AllWaiting w.table.store st' stays off chosen watchable) ne refl in
      let rest : List Act = replicate (length chosen) (piped world fuel) in
      (
        with_pipe u₁ st'' [],
        acts_first net world fuel (key right_arrow) (piped world fuel ∷ rest) w u
            (with_pipe u₁ st'' []) turned
            (acts_first net world fuel (piped world fuel) rest u u₁ (with_pipe u₁ st'' []) first
              placed),
        shown,
        refl,
      )
