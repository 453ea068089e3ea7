-- ===== src/Watch.antt =====
-- The list of watched rooms, whose users the wall shows page by page (Monitor/Monitor/WatchsList.cpp,
-- with OnShowPage of TitleRoom.cpp). Traverse has the rest of the list.
pub mod Window
pub mod Pages
pub mod Examples
use real_time_monitor_agent.Base.{
  ℕ, zero, suc, ◌+◌, ◌*◌, ◌/◌, ◌%◌, ◌^◌, ◌-◌, List, [], ◌∷◌, ◌++◌, Option, none, some, Bool, true,
  false, ltb, ◌==◌, if◌then◌else◌,
}
use real_time_monitor_agent.Base.Words.{add32, sub32, mul32}
use real_time_monitor_agent.Store.{
  Store, TitleRoom, M, Outcome, ok, deadlock, fault, stuck, pure, ◌>>=◌, ◌>>◌, PjStatus, success,
  einval, room_at, maximal_screen_num,
}
use real_time_monitor_agent.Rooms.{with_room_lock, increase_count}

-- The messages to the main window: `WM_CLEAN_SCREENS` and `WM_WATCH_ROOM_USER`.
pub data Message : Type 0 where
  cleans : Message
  watches : (user idx : ℕ) → Message

-- `rooms_` holds the addresses of the rooms, in the order of the set.
pub record WatchsList : Type 0 where
  pub watching : Bool
  pub page : ℕ
  pub rooms : List ℕ

-- The result of OnShowPage of a room, with `offset` and the messages sent.
pub record Shown : Type 0 where
  pub status : PjStatus
  pub offset : ℕ
  pub messages : List Message

abbrev pub behind_messages : List Message → Shown → Shown
behind_messages ms s = record s { messages = ms ++ s.messages }

-- The message of one round, if there is one.
abbrev pub watch_message : ℕ → ℕ → ℕ → List Message
watch_message p offset first = if ltb offset first then [] else watches p (sub32 offset first) ∷ []

-- The loop over the users of a room.
unfoldable pub show_users : List (ℕ × ℕ) → ℕ → ℕ → Shown
show_users [] offset first = record { status = success; offset = offset; messages = [] }
show_users ((k, p) ∷ users) offset first =
    let rest = show_users users (add32 offset 1) first in
    if ltb (add32 offset 1) (add32 first maximal_screen_num)
    then behind_messages (watch_message p offset first) rest
    else record {
      status = einval;
      offset = add32 offset 1;
      messages = watch_message p offset first;
    }

unfoldable pub room_on_show_page : ℕ → ℕ → ℕ → M Shown
unfolding with_room_lock
room_on_show_page r offset first =
    with_room_lock r do room ← room_at r; pure (show_users room.users offset first)

-- The loop of OnShowPage over the rooms.
unfoldable pub show_rooms : List ℕ → ℕ → ℕ → M (List Message)
show_rooms [] offset first st = ok [] st
show_rooms (r ∷ rs) offset first st =
    (do
      shown ← room_on_show_page r offset first
      elim shown.status [
        | success ↦ do later ← show_rooms rs shown.offset first; pure (shown.messages ++ later)
        | _ ↦ pure shown.messages
      ])
      st

unfoldable pub on_show_page : WatchsList → M (List Message)
on_show_page w = do
  messages ← show_rooms w.rooms 0 (mul32 (sub32 w.page 1) maximal_screen_num)
  pure (cleans ∷ messages)

-- The loop of Page.
unfoldable pub count_users : List ℕ → ℕ → M ℕ
count_users [] user_count st = ok user_count st
count_users (r ∷ rs) user_count st =
    (do user_count' ← increase_count r user_count; count_users rs user_count') st

abbrev pub pages_of : ℕ → ℕ
pages_of user_count =
    if user_count % maximal_screen_num == 0
    then user_count / maximal_screen_num
    else user_count / maximal_screen_num + 1

unfoldable pub page_count : WatchsList → M ℕ
page_count w = do user_count ← count_users w.rooms 0; pure (pages_of user_count)

-- The macros MIN and MAX.
abbrev pub min_of : ℕ → ℕ → ℕ
min_of a b = if ltb a b then a else b

abbrev pub max_of : ℕ → ℕ → ℕ
max_of a b = if ltb b a then a else b

unfoldable pub next_page : WatchsList → M (WatchsList × List Message)
next_page w =
    if w.watching
    then (do
      pages ← page_count w
      let w' : WatchsList = record w { page = min_of pages (add32 w.page 1) }
      messages ← on_show_page w'
      pure (w', messages))
    else pure (w, [])

unfoldable pub prev_page : WatchsList → M (WatchsList × List Message)
prev_page w =
    if w.watching
    then (do
      let w' : WatchsList = record w { page = max_of 1 (sub32 w.page 1) }
      messages ← on_show_page w'
      pure (w', messages))
    else pure (w, [])

-- AddRoom, when the room lies below the watched node: a room that is in the set stays as it is.
-- `before` is the order of the set.
unfoldable pub insert_room : (ℕ → ℕ → Bool) → ℕ → List ℕ → List ℕ
insert_room before r [] = r ∷ []
insert_room before r (q ∷ rooms) =
    let later = q ∷ insert_room before r rooms in
    if before r q then r ∷ (q ∷ rooms) else if before q r then later else q ∷ rooms
