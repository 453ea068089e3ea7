-- ===== src/Dialog.antt =====
-- The main window, whose thread takes messages out of a pipe and calls the other parts
-- (Monitor/Monitor/MonitorDlg.cpp), and the events of the windows that put them there (Screen.cpp,
-- Title.cpp, TitleRoom.cpp). Drawing and the message boxes are left out.
pub mod Methods
pub mod Tables
pub mod Walks
pub mod Handling
pub mod Running
pub mod Dragging
pub mod Placing
pub mod Paging
mod Examples
use real_time_monitor_agent.Base.{
  ℕ, zero, suc, ◌+◌, ◌%◌, ◌≡◌, List, [], ◌∷◌, ◌++◌, Option, none, some, Bool, true, false, not,
  ◌&&◌, ◌==◌, if◌then◌else◌,
}
use real_time_monitor_agent.Store.{
  Store, TitleRoom, Sent, M, ok, deadlock, fault, stuck, pure, ◌>>=◌, ◌>>◌, PjStatus,
  invalid_screen_index, room_at, user_at,
}
use real_time_monitor_agent.Rooms.{with_room_lock}
use real_time_monitor_agent.Wall.{link_screen_user, unlink_screen_user, clean_screens}
use real_time_monitor_agent.Layout.{Manager, change_layout}
use real_time_monitor_agent.Sockets.{Answers, Selected}
use real_time_monitor_agent.Reply.{Memory}
use real_time_monitor_agent.Connections.{ProxyTable, C, Ended, returns, on_store, del_all_proxys}
use real_time_monitor_agent.Connections.Events.{on_link_room, on_unlink_room}
use real_time_monitor_agent.Nodes.{Document}
use real_time_monitor_agent.Watch.{Message, cleans, watches, prev_page}
use real_time_monitor_agent.Traverse.{
  Post, of_page, continue_traverse, expanded_room, Watching, Walk, walks, page_posts, node_expanded,
  show_next, on_traverse, begin_watching, end_watching,
}

-- `param_t`, by its Msg, with wParam and lParam where they are used.
pub data Param : Type 0 where
  select_user : (user : Option ℕ) → Param
  watch_room_user : (user : Option ℕ) → (screen_idx : ℕ) → Param
  link_room_user : (screen_idx : ℕ) → Param
  unlink_room_user : (user screen : Option ℕ) → Param
  expandedroom : (title room : Option ℕ) → Param
  shrinkedroom : (room : Option ℕ) → Param
  disconnect_all_proxys clean_screen change_layouts : Param
  continue : (title : Option ℕ) → Param

-- The program, as far as the main window reaches it. The store of `table` is the one that all parts
-- share; `watch` gets it before each call. `res_type` is the static variable of OnChangeLayout.
pub record Main : Type 0 where
  pub table : ProxyTable
  pub watch : Watching
  pub manager : Manager
  pub is_draging : Bool
  pub draging_user : Option ℕ
  pub res_type : ℕ
  pub pipe : List Param

-- `broken`: a call uses a deleted object, or locks a mutex twice in the walk. `hangs`: a call blocks for
-- ever, or the fuel ran out.
pub data Ran : Type 0 where
  ran : Main → Ran
  broken : Ran
  hangs : Ran

abbrev pub then_ran : Ran → (Main → Ran) → Ran
then_ran r f = elim r [ ran w ↦ f w | broken ↦ broken | hangs ↦ hangs ]

-- A call of the ScreenMgr.
abbrev pub on_table : {A : Type 0} → C A → (A → Main → Ran) → Main → Ran
on_table m k w = elim (m w.table) [
  | returns a t ↦ k a (record w { table = t })
  | Ended.blocked ↦ hangs
  | Ended.crashed ↦ broken
  | Ended.unfinished ↦ hangs
]

-- One of which the result is not looked at, on the shared objects.
abbrev pub on_objects : {A : Type 0} → M A → Main → Ran
on_objects m = on_table (on_store m) (λ a w. ran w)

-- The messages that the list of watched rooms sends, with its title.
abbrev pub mail : Option ℕ → List Post → List Param
mail title [] = []
mail title (of_page cleans ∷ ps) = clean_screen ∷ mail title ps
mail title (of_page (watches user idx) ∷ ps) = watch_room_user (some user) idx ∷ mail title ps
mail title (continue_traverse ∷ ps) = continue title ∷ mail title ps
mail title (expanded_room r ∷ ps) = expandedroom title (some r) ∷ mail title ps

-- A call of `g_watchs_list`: what it comes to, and the call.
abbrev pub after_walk : Main → Walk → Ran
after_walk w (walks v) = ran (record w {
  watch = v;
  table = record w.table { store = v.store };
  pipe = w.pipe ++ mail v.title_ctl v.posts;
})
after_walk w Walk.crashes = broken
after_walk w Walk.endless = hangs

abbrev pub lent : Main → Watching
lent w = record w.watch { store = w.table.store; posts = [] }

abbrev pub on_list : (Watching → Walk) → Main → Ran
on_list f w = after_walk w (f (lent w))

-- sinashow::SendMessage.
abbrev pub send_message : Param → Main → Ran
send_message x w = ran (record w { pipe = w.pipe ++ (x ∷ []) })

unfoldable pub on_select_user : Option ℕ → Main → Ran
on_select_user none w = ran w
on_select_user (some p) w = ran (record w { is_draging = true; draging_user = some p })

-- PrevPage, as `show_next` is NextPage.
unfoldable pub show_prev : Watching → Walk
show_prev w = elim (prev_page w.list w.store) [
  | ok (list, messages) st ↦
      walks (record w { store = st; list = list; posts = w.posts ++ page_posts messages })
  | deadlock ↦ Walk.crashes
  | fault ↦ Walk.crashes
  | stuck ↦ Walk.endless
]

-- `ress[g_res_type].res` is the layout of the same number.
unfoldable pub on_change_layout : Main → Ran
on_change_layout w = elim (change_layout w.res_type w.manager) [
  | none ↦ broken
  | some m ↦ ran (record w { manager = m; res_type = (w.res_type + 1) % 5 })
]

-- What the network, the directory services and the tree control answer.
pub record World : Type 0 where
  pub answers : Answers
  pub selected : Selected
  pub size : ℕ
  pub memory : Memory
  pub service : Watching → ℕ → Option Document
  pub parent_of : ℕ → Option ℕ

abbrev pub is_some : Option ℕ → Bool
is_some none = false
is_some (some x) = true

module _ (net : List Sent → Sent → PjStatus) where
  unfoldable pub on_link_screen_user : ℕ → Main → Ran
  unfolding link_screen_user
  on_link_screen_user screen_idx w = elim w.draging_user [
    | none ↦ ran w
    | some p ↦
        if screen_idx == invalid_screen_index
        then ran w
        else if w.is_draging
        then then_ran (on_objects (link_screen_user net screen_idx (some p)) w)
            (λ w'. ran (record w' { is_draging = false; draging_user = none }))
        else ran w
  ]

  unfoldable pub on_watch_room_user : Option ℕ → ℕ → Main → Ran
  unfolding link_screen_user
  on_watch_room_user none screen_idx w = ran w
  on_watch_room_user (some p) screen_idx w =
      if screen_idx == invalid_screen_index
      then ran w
      else on_objects (link_screen_user net screen_idx (some p)) w

  unfoldable pub on_unlink_screen_user : Option ℕ → Option ℕ → Main → Ran
  unfolding unlink_screen_user
  on_unlink_screen_user none screen w = ran w
  on_unlink_screen_user (some p) none w = ran w
  on_unlink_screen_user (some p) (some s) w =
      on_objects (unlink_screen_user net (some s) (some p)) w

  -- `title` goes on with the walk if the room cannot be linked.
  unfoldable pub on_expandedroom : World → Option ℕ → Option ℕ → Main → Ran
  unfolding on_link_room
  on_expandedroom world title none w = ran w
  on_expandedroom world title (some r) w =
      on_table
        (on_link_room net world.answers world.selected r (is_some title) world.size world.memory)
        (λ (status, goes_on) w'. if goes_on then send_message (continue title) w' else ran w') w

  unfoldable pub on_shrinkedroom : Option ℕ → Main → Ran
  unfolding on_unlink_room
  on_shrinkedroom none w = ran w
  on_shrinkedroom (some r) w = on_table (on_unlink_room net (some r)) (λ status w'. ran w') w

  -- The `switch` of EventOnPipe. The fuel is for the walk through the nodes.
  unfoldable pub handle : World → ℕ → Param → Main → Ran
  unfolding on_select_user on_change_layout on_link_screen_user on_watch_room_user
      on_unlink_screen_user on_expandedroom on_shrinkedroom
  handle world fuel (select_user user) = on_select_user user
  handle world fuel (watch_room_user user screen_idx) = on_watch_room_user user screen_idx
  handle world fuel (link_room_user screen_idx) = on_link_screen_user screen_idx
  handle world fuel (unlink_room_user user screen) = on_unlink_screen_user user screen
  handle world fuel (expandedroom title room) = on_expandedroom world title room
  handle world fuel (shrinkedroom room) = on_shrinkedroom room
  handle world fuel disconnect_all_proxys = on_table del_all_proxys (λ x w. ran w)
  handle world fuel clean_screen = on_objects clean_screens
  handle world fuel (continue title) = on_list (on_traverse world.service world.parent_of fuel)
  handle world fuel change_layouts = on_change_layout

  -- EventOnPipe of the main window.
  unfoldable pub on_pipe : World → ℕ → Main → Ran
  unfolding handle
  on_pipe world fuel w = elim w.pipe [
    | [] ↦ ran w
    | x ∷ xs ↦ handle world fuel x (record w { pipe = xs })
  ]

-- PreTranslateMessage when a key is released.
pub data Key : Type 0 where
  left_arrow right_arrow return_key other_key : Key

unfoldable pub pre_translate_message : Key → Main → Ran
unfolding show_prev show_next
pre_translate_message left_arrow = on_list show_prev
pre_translate_message right_arrow = on_list show_next
pre_translate_message return_key = send_message change_layouts
pre_translate_message other_key = λ w. ran w

-- OnLButtonUp and OnLButtonDblClk of a screen.
unfoldable pub on_l_button_up : ℕ → Main → Ran
on_l_button_up index = send_message (link_room_user index)

unfoldable pub on_l_button_dbl_clk : ℕ → Main → Ran
on_l_button_dbl_clk index w =
    send_message (unlink_room_user (w.table.store.screens index).user (some index)) w

-- OnTvnBeginDrag on an item without children, which holds `user`.
unfoldable pub on_tvn_begin_drag : Option ℕ → Main → Ran
on_tvn_begin_drag none w = ran w
on_tvn_begin_drag (some p) w = send_message (select_user (some p)) w

-- OnItemExpanded and OnItemShrinked of a room, with whether the message is sent.
unfoldable pub room_on_item_expanded : ℕ → Main → Ran
unfolding with_room_lock
room_on_item_expanded r =
    on_table (on_store (with_room_lock r do room ← room_at r; pure room.proxy))
      λ proxy w. elim proxy [ none ↦ send_message (expandedroom none (some r)) w | some a ↦ ran w ]

-- The loop over the users: whether one is on a screen.
unfoldable pub any_shown : List (ℕ × ℕ) → M Bool
any_shown [] st = ok false st
any_shown ((k, p) ∷ users) st =
    (do u ← user_at p; if u.screen_idx == invalid_screen_index then any_shown users else pure true)
      st

unfoldable pub room_on_item_shrinked : ℕ → Main → Ran
unfolding with_room_lock any_shown
room_on_item_shrinked r =
    on_table (on_store (with_room_lock r do room ← room_at r; any_shown room.users))
      λ shown w. if shown then ran w else send_message (shrinkedroom (some r)) w

-- Title::OnItemExpanded, with the call of TitleNode::OnItemExpanded of the node.
unfoldable pub node_on_item_expanded : World → ℕ → ℕ → Main → Ran
unfolding node_expanded
node_on_item_expanded world fuel n = on_list λ w. elim (w.tree.at n) [
  | none ↦ Walk.crashes
  | some node ↦ node_expanded fuel n (world.service w node.id) w
]

-- OnLookUpNode and OnUnlookUpNode.
unfoldable pub on_look_up_node : World → ℕ → ℕ → ℕ → Main → Ran
unfolding begin_watching
on_look_up_node world fuel node title =
    on_list (begin_watching world.service world.parent_of fuel node title)

unfoldable pub on_unlook_up_node : Main → Ran
unfolding end_watching
on_unlook_up_node = on_list λ w. walks (end_watching w)
