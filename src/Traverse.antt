-- ===== src/Traverse.antt =====
-- The walk through the nodes below a watched one (Monitor/Monitor/WatchsList.cpp, with OnWatched of
-- TitleNode.cpp and TitleRoom.cpp and BelowWatchedNode of Title.cpp). A room has the same address as a
-- node and in the store.
pub mod Order
pub mod Stale
pub mod Examples
use real_time_monitor_agent.Base.{
  ℕ, zero, suc, ◌≡◌, List, [], ◌∷◌, ◌++◌, Option, none, some, Bool, true, false, ◌==◌, ltb,
  if◌then◌else◌, length, drop,
}
use mathlib.Core.List.{reverse}
use real_time_monitor_agent.Store.{
  Store, M, Outcome, ok, deadlock, fault, stuck, ◌>>=◌, ◌>>◌, update,
}
use real_time_monitor_agent.Rooms.{on_destory}
use real_time_monitor_agent.Nodes.{
  title, title_node, title_room, title_user, Node, Tree, Grown, gives, Document, on_item_expanded,
}
use real_time_monitor_agent.Watch.{WatchsList, Message, cleans, next_page, insert_room}

-- The messages to the main window: those of the pages, WM_CONTINUE_TRAVERSE, and WM_EXPANDEDROOM with
-- the room.
pub data Post : Type 0 where
  of_page : Message → Post
  continue_traverse : Post
  expanded_room : ℕ → Post

-- `g_watchs_list` whole, with what it looks at: `list` holds watching_, page_ and rooms_.
pub record Watching : Type 0 where
  pub store : Store
  pub tree : Tree
  pub list : WatchsList
  pub node : Option ℕ
  pub title_ctl : Option ℕ
  pub traverse_stack : List ℕ
  pub posts : List Post

-- `crashes`: a deleted object is used, or a mutex locked twice. `endless`: the fuel ran out.
pub data Walk : Type 0 where
  walks : Watching → Walk
  crashes : Walk
  endless : Walk

abbrev pub post : Post → Watching → Watching
post x w = record w { posts = w.posts ++ (x ∷ []) }

abbrev pub page_posts : List Message → List Post
page_posts [] = []
page_posts (x ∷ xs) = of_page x ∷ page_posts xs

-- Push, for the nodes in this order.
unfoldable pub push_nodes : List ℕ → List ℕ → List ℕ
push_nodes [] stack = stack
push_nodes (p ∷ ps) stack = push_nodes ps (p ∷ stack)

unfoldable pub end_watching : Watching → Watching
end_watching w = record (post (of_page cleans) w) {
  list = record { watching = false; page = 0; rooms = [] };
  node = none;
  title_ctl = none;
  traverse_stack = [];
}

-- The parent of a node: that of its item in the tree control, which `parent_of` answers.
-- `none`: the fuel ran out.
unfoldable pub below_watched_node : ℕ → (ℕ → Option ℕ) → ℕ → ℕ → Option Bool
below_watched_node zero parent_of p node = none
below_watched_node (suc fuel) parent_of p node = elim (parent_of p) [
  | none ↦ some false
  | some q ↦ if q == node then some true else below_watched_node fuel parent_of q node
]

-- The order of the set of rooms.
abbrev pub order_before : Tree → ℕ → ℕ → Bool
order_before t p q = elim (t.at p) [
  | none ↦ false
  | some a ↦ elim (t.at q) [ none ↦ false | some b ↦ ltb a.order b.order ]
]

-- NextPage.
unfoldable pub show_next : Watching → Walk
show_next w = elim (next_page w.list w.store) [
  | ok (list, messages) st ↦
      walks (record w { store = st; list = list; posts = w.posts ++ page_posts messages })
  | deadlock ↦ crashes
  | fault ↦ crashes
  | stuck ↦ endless
]

-- OnTraverse, where `watched` is the virtual call of OnWatched.
unfoldable pub traverse_by : (ℕ → Watching → Walk) → Watching → Walk
unfolding show_next
traverse_by watched w = elim w.traverse_stack [
  | [] ↦ show_next w
  | p ∷ ps ↦ watched p (record w { traverse_stack = ps })
]

-- OnDestory of a room that is kicked out, and its `delete`. A room that ParseXML made and that is not in
-- the store has no users: OnDestory only sets its `proxy_`.
unfoldable pub destory_room : ℕ → M (Unit {0})
destory_room r st = elim (st.rooms r) [
  | none ↦ ok tt st
  | some room ↦
      (do on_destory r; (λ st'. ok tt (record st' { rooms = update st'.rooms r none }))) st
]

unfoldable pub destory_each : List ℕ → M (Unit {0})
unfolding destory_room
destory_each [] st = ok tt st
destory_each (r ∷ rs) st = (do destory_room r; destory_each rs) st

-- OnItemExpanded of a node: what happens to the tree, and to users, rooms and screens when it kicks
-- rooms out.
unfoldable pub node_expanded : ℕ → ℕ → Option Document → Watching → Walk
unfolding destory_each
node_expanded fuel p document w = elim (on_item_expanded fuel p document w.tree) [
  | gives x t ↦ elim (destory_each (drop (length w.tree.destoryed) t.destoryed) w.store) [
    | ok y st ↦ walks (record w { tree = t; store = st })
    | deadlock ↦ crashes
    | fault ↦ crashes
    | stuck ↦ endless
  ]
  | Grown.dangling ↦ crashes
  | Grown.endless ↦ endless
]

module _ (service : Watching → ℕ → Option Document) (parent_of : ℕ → Option ℕ) where
  unfoldable pub add_watched_room : ℕ → ℕ → Watching → Walk
  unfolding below_watched_node
  add_watched_room fuel r w =
      if w.list.watching
      then elim w.title_ctl [
        | none ↦ walks w
        | some c ↦ elim w.node [
          | none ↦ walks w
          | some n ↦ elim (below_watched_node fuel parent_of r n) [
            | none ↦ endless
            | some below ↦
                if below
                then walks (record (post continue_traverse w) {
                  list = record w.list { rooms = insert_room (order_before w.tree) r w.list.rooms };
                })
                else walks w
          ]
        ]
      ]
      else walks w

  -- OnWatched of a room. ParseXML leaves the `proxy_` of a new room uninitialised, so that to read it is
  -- undefined: such a room, which is not in the store, counts as a crash.
  unfoldable pub room_watched : ℕ → ℕ → Watching → Walk
  unfolding add_watched_room
  room_watched fuel r w = elim (w.store.rooms r) [
    | none ↦ crashes
    | some room ↦ elim room.proxy [
      | some a ↦ add_watched_room fuel r w
      | none ↦ walks (post (expanded_room r) w)
    ]
  ]

  -- OnWatched. Both OnItemExpanded and the walk get the fuel that is left.
  unfoldable pub on_watched : ℕ → ℕ → Watching → Walk
  unfolding room_watched traverse_by push_nodes node_expanded
  on_watched zero p w = endless
  on_watched (suc fuel) p w = elim (w.tree.at p) [
    | none ↦ crashes
    | some node ↦ elim node.node_type [
      | title_room ↦ room_watched fuel p w
      | title_node ↦ elim (node_expanded fuel p (service w node.id) w) [
        | walks w' ↦ elim (w'.tree.at p) [
          | none ↦ crashes
          | some node' ↦ traverse_by (on_watched fuel) (record w' {
            traverse_stack = push_nodes (reverse node'.nodes_order) w'.traverse_stack;
          })
        ]
        | crashes ↦ crashes
        | endless ↦ endless
      ]
      | title ↦ walks w
      | title_user ↦ walks w
    ]
  ]

  unfoldable pub on_traverse : ℕ → Watching → Walk
  unfolding on_watched
  on_traverse fuel = traverse_by (on_watched fuel)

  unfoldable pub begin_watching : ℕ → ℕ → ℕ → Watching → Walk
  unfolding end_watching on_watched
  begin_watching fuel n c w = on_watched fuel n (record (end_watching w) {
    node = some n;
    title_ctl = some c;
    list = record { watching = true; page = 0; rooms = [] };
  })
