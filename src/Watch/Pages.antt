-- ===== src/Watch/Pages.antt =====
-- What a page shows.
use real_time_monitor_agent.Base.{
  ℕ, ◌+◌, ◌*◌, ◌^◌, ◌-◌, ◌≤◌, ◌<◌, ◌≡◌, refl, sym, ap, ◌∙◌, List, [], ◌∷◌, ◌++◌, some, true, false,
  arith, length, take, drop, length-append, append-nil,
}
use mathlib.Core.Path.{fun_ext, ap₂}
use native.Mathlib.Decide.{dec_lt}
use real_time_monitor_agent.Base.Words.{add32, sub32, mul32}
use real_time_monitor_agent.Store.{
  Store, TitleRoom, ok, success, einval, maximal_screen_num, update,
}
use real_time_monitor_agent.Rooms.{with_room_lock, increase_count}
use real_time_monitor_agent.Watch.Window.{
  window, window-nil, window-append, window-past, window-none, show_users-Showing, numbered,
}
use real_time_monitor_agent.Watch.{
  Message, cleans, WatchsList, Shown, show_users, room_on_show_page, show_rooms, on_show_page,
  count_users, pages_of, page_count, next_page, prev_page, min_of,
}

-- A body that only reads leaves the store as it was, lock included.
relocked :
    (r : ℕ) (room : TitleRoom) (st : Store)
    → st.rooms r ≡ some room
    → room.locked ≡ false
    → update
        (update st.rooms r (some (record room { locked = true })))
        r
        (some (record room { locked = false }))
      ≡ st.rooms
relocked r room st h e = fun_ext λ q. ground (arith, h, e)

room_on_show_page-reads :
    (r offset first : ℕ) (room : TitleRoom) (st : Store)
    → st.rooms r ≡ some room
    → room.locked ≡ false
    → room_on_show_page r offset first st ≡ ok (show_users room.users offset first) st
unfolding room_on_show_page with_room_lock
room_on_show_page-reads r offset first room st h e =
    run
    ∙ ap (λ f. ok (show_users room.users offset first) (record st { rooms = f }))
        (relocked r room st h e)
  where
    run :
        room_on_show_page r offset first st
        ≡ ok (show_users room.users offset first) (record st {
          rooms =
              update
                (update st.rooms r (some (record room { locked = true })))
                r
                (some (record room { locked = false }));
        })
    run = ground arith

increase_count-reads :
    (r user_count : ℕ) (room : TitleRoom) (st : Store)
    → st.rooms r ≡ some room
    → room.locked ≡ false
    → increase_count r user_count st ≡ ok (add32 user_count (length room.users)) st
unfolding increase_count with_room_lock
increase_count-reads r user_count room st h e =
    run
    ∙ ap (λ f. ok (add32 user_count (length room.users)) (record st { rooms = f }))
        (relocked r room st h e)
  where
    run :
        increase_count r user_count st
        ≡ ok (add32 user_count (length room.users)) (record st {
          rooms =
              update
                (update st.rooms r (some (record room { locked = true })))
                r
                (some (record room { locked = false }));
        })
    run = ground arith

-- The rooms at the addresses, unlocked, with these users.
abbrev pub HasUsers : Store → List ℕ → List (List (ℕ × ℕ)) → Type 0
HasUsers st [] [] = Unit
HasUsers st [] (users ∷ rest) = ⊥
HasUsers st (r ∷ rs) [] = ⊥
HasUsers st (r ∷ rs) (users ∷ rest) =
    ((room : TitleRoom) × (st.rooms r ≡ some room) × (room.locked ≡ false) × (room.users ≡ users))
    × HasUsers st rs rest

-- All users of the rooms, in order.
abbrev pub all_of : List (List (ℕ × ℕ)) → List (ℕ × ℕ)
all_of [] = []
all_of (users ∷ rest) = users ++ all_of rest

count_users-reads :
    (rs : List ℕ) (users : List (List (ℕ × ℕ))) (n : ℕ) (st : Store)
    → HasUsers st rs users
    → n + length (all_of users) < 2 ^ 32
    → count_users rs n st ≡ ok (n + length (all_of users)) st
unfolding count_users
count_users-reads [] [] n st h fits = ap (λ m. ok m st) (omega arith)
count_users-reads [] (us ∷ rest) n st h fits = elim h [ ]
count_users-reads (r ∷ rs) [] n st h fits = elim h [ ]
count_users-reads (r ∷ rs) (us ∷ rest) n st ((room, here, unlocked, same), h) fits =
    let size : length (us ++ all_of rest) ≡ length us + length (all_of rest) =
      length-append us (all_of rest) in
    let step : add32 n (length room.users) ≡ n + length us =
      ap (λ l. add32 n (length l)) same ∙ omega (arith, size) in
    ground (arith, increase_count-reads r n room st here unlocked, step)
    ∙ count_users-reads rs rest (n + length us) st h (omega (arith, size))
    ∙ ap (λ m. ok m st) (omega (arith, size))

show_rooms_more :
    (r : ℕ) (rs : List ℕ) (offset first : ℕ) (st : Store) (s : Shown) (later : List Message)
    → room_on_show_page r offset first st ≡ ok s st
    → s.status ≡ success
    → show_rooms rs s.offset first st ≡ ok later st
    → show_rooms (r ∷ rs) offset first st ≡ ok (s.messages ++ later) st
unfolding show_rooms
show_rooms_more r rs offset first st s later e good rest = ground (arith, e, good, rest)

show_rooms_full :
    (r : ℕ) (rs : List ℕ) (offset first : ℕ) (st : Store) (s : Shown)
    → room_on_show_page r offset first st ≡ ok s st
    → s.status ≡ einval
    → show_rooms (r ∷ rs) offset first st ≡ ok s.messages st
unfolding show_rooms
show_rooms_full r rs offset first st s e full = ground (arith, e, full)

show_rooms-window :
    (rs : List ℕ) (users : List (List (ℕ × ℕ))) (offset first : ℕ) (st : Store)
    → HasUsers st rs users
    → offset < first + maximal_screen_num
    → first + maximal_screen_num < 2 ^ 32
    → show_rooms rs offset first st ≡ ok (window first offset (all_of users)) st
show_rooms-window [] [] offset first st h begun fits =
    unfold show_rooms in ap (λ ms. ok ms st) (sym (window-nil first offset))
show_rooms-window [] (us ∷ rest) offset first st h begun fits = elim h [ ]
show_rooms-window (r ∷ rs) [] offset first st h begun fits = elim h [ ]
show_rooms-window (r ∷ rs) (us ∷ rest) offset first st ((room, here, unlocked, same), h) begun
      fits =
    let s = show_users-Showing us offset first begun fits in
    let read : room_on_show_page r offset first st ≡ ok (show_users us offset first) st =
      room_on_show_page-reads r offset first room st here unlocked
      ∙ ap (λ l. ok (show_users l offset first) st) same in
    elim (dec_lt (offset + length us) (first + maximal_screen_num)) [
      | yes more ↦
          let next = s.goes_on more in
          show_rooms_more r rs offset first st (show_users us offset first)
            (window first (offset + length us) (all_of rest)) read next.0
            (ap (λ n. show_rooms rs n first st) next.1
              ∙ show_rooms-window rs rest (offset + length us) first st h more fits)
          ∙ ap (λ ms. ok (ms ++ window first (offset + length us) (all_of rest)) st) s.sends
          ∙ ap (λ ms. ok ms st) (sym (window-append first offset us (all_of rest)))
      | no full ↦
          show_rooms_full r rs offset first st (show_users us offset first) read
            (s.stops (omega arith))
          ∙ ap (λ ms. ok ms st)
              (s.sends
                ∙ sym (append-nil (window first offset us))
                ∙ ap (λ ms. window first offset us ++ ms)
                    (sym (window-past first (offset + length us) (all_of rest) (omega arith)))
                ∙ sym (window-append first offset us (all_of rest)))
    ]

-- What the page `page` should show of these users: user number `15 * (page - 1) + i` on the screen `i`.
abbrev pub page_messages : ℕ → List (ℕ × ℕ) → List Message
page_messages page users =
    cleans ∷ numbered 0 (take maximal_screen_num (drop (maximal_screen_num * (page - 1)) users))

-- OnShowPage of a page from 1 on cleans the screens and then watches the fifteen users of the page,
-- fewer on the last page, over all rooms in order, the first on the screen 0; no lock stays held.
pub on_show_page-shows :
    (w : WatchsList) (users : List (List (ℕ × ℕ))) (st : Store)
    → HasUsers st w.rooms users
    → 1 ≤ w.page
    → maximal_screen_num * w.page < 2 ^ 32
    → on_show_page w st ≡ ok (page_messages w.page (all_of users)) st
unfolding on_show_page
on_show_page-shows w users st h pos fits =
    let first : mul32 (sub32 w.page 1) maximal_screen_num ≡ maximal_screen_num * (w.page - 1) =
      omega arith in
    let shown =
      show_rooms-window w.rooms users 0 (maximal_screen_num * (w.page - 1)) st h (omega arith)
        (omega arith) in
    ground (arith, ap (λ n. show_rooms w.rooms 0 n st) first, shown, from_zero)
  where
    from_zero :
        window (maximal_screen_num * (w.page - 1)) 0 (all_of users)
        ≡ numbered 0
            (take maximal_screen_num (drop (maximal_screen_num * (w.page - 1)) (all_of users)))
    from_zero =
        let before : 0 - maximal_screen_num * (w.page - 1) ≡ 0 = omega arith in
        let whole : maximal_screen_num * (w.page - 1) - 0 ≡ maximal_screen_num * (w.page - 1) =
          omega arith in
        ap₂ (λ n m. numbered n (take (maximal_screen_num - n) (drop m (all_of users)))) before whole

-- NextPage with some user to watch, fewer than 2 ^ 32 - 15, from any page but 4294967295 (which PrevPage
-- from page 0 leaves, and from which NextPage goes to page 0): it shows the page behind the current one,
-- or the last page if there is none; every user is on one of the pages up to the last.
pub next_page-shows :
    (w : WatchsList) (users : List (List (ℕ × ℕ))) (st : Store)
    → HasUsers st w.rooms users
    → w.watching ≡ true
    → w.page < 4294967295
    → 0 < length (all_of users)
    → length (all_of users) + maximal_screen_num < 2 ^ 32
    → (page : ℕ) × (next_page w st
        ≡ ok (record w { page = page }, page_messages page (all_of users)) st)
      × (page ≡ min_of (pages_of (length (all_of users))) (w.page + 1))
      × (length (all_of users) ≤ maximal_screen_num * pages_of (length (all_of users)))
unfolding next_page page_count
next_page-shows w users st h watching page some_users fits =
    (min_of (pages_of total) (w.page + 1), run, refl, ground arith)
  where
    total : ℕ
    total = length (all_of users)

    counted : count_users w.rooms 0 st ≡ ok total st
    counted = count_users-reads w.rooms users 0 st h (omega arith) ∙ ap (λ n. ok n st) (omega arith)

    next : min_of (pages_of total) (add32 w.page 1) ≡ min_of (pages_of total) (w.page + 1)
    next = ap (min_of (pages_of total)) (ground arith)

    shown :
        on_show_page (record w { page = min_of (pages_of total) (w.page + 1) }) st
        ≡ ok (page_messages (min_of (pages_of total) (w.page + 1)) (all_of users)) st
    shown =
        on_show_page-shows (record w { page = min_of (pages_of total) (w.page + 1) }) users st h
          (ground arith) (ground arith)

    run :
        next_page w st
        ≡ ok
            (
              record w { page = min_of (pages_of total) (w.page + 1) },
              page_messages (min_of (pages_of total) (w.page + 1)) (all_of users),
            )
            st
    run = ground (arith, watching, counted, next, shown)

-- PrevPage before the first NextPage, on page 0, with fewer than 4294967266 users: the unsigned
-- difference wraps round, the list stands on page 4294967295 and the wall is cleaned and stays empty.
pub prev_page-underflows :
    (w : WatchsList) (users : List (List (ℕ × ℕ))) (st : Store)
    → HasUsers st w.rooms users
    → w.watching ≡ true
    → w.page ≡ 0
    → length (all_of users) < 4294967266
    → prev_page w st ≡ ok (record w { page = 4294967295 }, cleans ∷ []) st
unfolding prev_page
prev_page-underflows w users st h watching zero_page few =
    ground (arith, watching, zero_page, empty)
  where
    empty_from : (first : ℕ) → first ≡ 4294967266 → show_rooms w.rooms 0 first st ≡ ok [] st
    empty_from first e =
        show_rooms-window w.rooms users 0 first st h (omega arith) (omega arith)
        ∙ ap (λ ms. ok ms st) (window-none first 0 (all_of users) (omega arith))

    empty : on_show_page (record w { page = 4294967295 }) st ≡ ok (cleans ∷ []) st
    empty =
        unfold on_show_page in
        ground (arith, empty_from (mul32 (sub32 4294967295 1) maximal_screen_num) (omega arith))
