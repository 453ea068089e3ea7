-- ===== src/Watch/Examples.antt =====
-- Pages of a watched room with two users.
use real_time_monitor_agent.Base.{ℕ, ◌≡◌, ◌≤◌, ◌*◌, refl, List, [], ◌∷◌, true, arith}
use real_time_monitor_agent.Store.{ok, maximal_screen_num}
use real_time_monitor_agent.Rooms.Examples.{busy_store, busy_room}
use real_time_monitor_agent.Watch.{WatchsList, next_page, pages_of, min_of}
use real_time_monitor_agent.Watch.Pages.{HasUsers, all_of, page_messages, next_page-shows}

abbrev pub two_users : List (List (ℕ × ℕ))
two_users = ((5, 0) ∷ ((6, 1) ∷ [])) ∷ []

abbrev watched : ℕ → WatchsList
watched page = record { watching = true; page = page; rooms = 0 ∷ [] }

pub busy_store-HasUsers : HasUsers busy_store (0 ∷ []) two_users
busy_store-HasUsers = ((busy_room, refl, refl, refl), tt)

next_page-shows_example :
    (page : ℕ) × (next_page (watched 0) busy_store
      ≡ ok (watched page, page_messages page (all_of two_users)) busy_store)
    × (page ≡ min_of (pages_of 2) 1)
    × (2 ≤ maximal_screen_num * pages_of 2)
next_page-shows_example =
    next_page-shows (watched 0) two_users busy_store busy_store-HasUsers refl (omega arith)
      (omega arith) (omega arith)
