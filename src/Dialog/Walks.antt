-- ===== src/Dialog/Walks.antt =====
-- The walk through the nodes (Monitor/Monitor/WatchsList.cpp) keeps users and screens linked both ways.
use mathlib.Core.List.{reverse}
use real_time_monitor_agent.Base.{
  ℕ, zero, suc, List, [], ◌∷◌, ◌++◌, Option, none, some, Bool, true, false, if◌then◌else◌, length,
  drop,
}
use real_time_monitor_agent.Store.{
  Store, TitleRoom, Outcome, ok, deadlock, fault, stuck, ◌>>◌, update,
}
use real_time_monitor_agent.Rooms.{on_destory}
use real_time_monitor_agent.Rooms.Invariant.{on_destory-Keeps}
use real_time_monitor_agent.Store.Keeps.{Returned, Keeps, Runs-bind}
use real_time_monitor_agent.Nodes.{
  NodeType, title, title_node, title_room, title_user, Node, Tree, Grown, gives, Document,
  on_item_expanded,
}
use real_time_monitor_agent.Watch.{WatchsList, Message, next_page, prev_page}
use real_time_monitor_agent.Traverse.{
  Watching, Walk, walks, crashes, endless, page_posts, push_nodes, below_watched_node, show_next,
  traverse_by, add_watched_room, room_watched, on_watched, on_traverse, begin_watching,
  destory_room, destory_each, node_expanded,
}
use real_time_monitor_agent.Wall.Invariant.{Sound}
use real_time_monitor_agent.Dialog.{show_prev}
use real_time_monitor_agent.Dialog.Methods.{next_page-Keeps, prev_page-Keeps}

-- The store is sound behind a walk that returns.
abbrev pub Walked : Walk → Type 0
Walked o = elim o [ walks v ↦ Sound v.store | crashes ↦ Unit | endless ↦ Unit ]

-- A page is shown.
abbrev shown : Watching → Outcome (WatchsList × List Message) → Walk
shown w o = elim o [
  | ok (list, messages) st ↦
      walks (record w { store = st; list = list; posts = w.posts ++ page_posts messages })
  | deadlock ↦ crashes
  | fault ↦ crashes
  | stuck ↦ endless
]

shown-Walked :
    (w : Watching) (o : Outcome (WatchsList × List Message))
    → Returned (λ a st. Sound st) o
    → Walked (shown w o)
shown-Walked w (ok a st) v = v
shown-Walked w deadlock v = tt
shown-Walked w fault v = tt
shown-Walked w stuck v = tt

pub show_next-Walked : (w : Watching) → Sound w.store → Walked (show_next w)
unfolding show_next
show_next-Walked w v =
    shown-Walked w (next_page w.list w.store) ((next_page-Keeps w.list).run w.store v)

pub show_prev-Walked : (w : Watching) → Sound w.store → Walked (show_prev w)
unfolding show_prev
show_prev-Walked w v =
    shown-Walked w (prev_page w.list w.store) ((prev_page-Keeps w.list).run w.store v)

pub Walked-option :
    {V : Type 0} (n : Walk) (s : V → Walk) (o : Option V)
    → Walked n
    → ((v : V) → Walked (s v))
    → Walked (elim o [ none ↦ n | some v ↦ s v ])
Walked-option n s none e es = e
Walked-option n s (some v) e es = es v

Walked-if : (m n : Walk) (b : Bool) → Walked m → Walked n → Walked (if b then m else n)
Walked-if m n true e e' = e
Walked-if m n false e e' = e'

traverse_by-Walked :
    (watched : ℕ → Watching → Walk)
    → ((p : ℕ) (w : Watching) → Sound w.store → Walked (watched p w))
    → (w : Watching) → Sound w.store
    → Walked (traverse_by watched w)
unfolding traverse_by
traverse_by-Walked watched keep w v = from w.traverse_stack
  where
    from :
        (l : List ℕ)
        → Walked (elim l as (λ x. Walk) [
          | [] ↦ show_next w
          | p ∷ ps ↦ watched p (record w { traverse_stack = ps })
        ])
    from [] = show_next-Walked w v
    from (p ∷ ps) = keep p (record w { traverse_stack = ps }) v

-- The rooms that an expansion kicks out are destroyed.
destory_room-Keeps : (r : ℕ) → Keeps Sound (destory_room r)
unfolding destory_room
destory_room-Keeps r = record { run = λ st v. from st v (st.rooms r) }
  where
    gone : (st : Store) → Sound st → Sound (record st { rooms = update st.rooms r none })
    gone st v = record { linked = v.linked; free = v.free; housed = v.housed }

    from :
        (st : Store)
        → Sound st
        → (o : Option TitleRoom)
        → Returned
            (λ x. Sound)
            (elim o as (λ y. Outcome (Unit {0})) [
              | none ↦ ok tt st
              | some room ↦
                  (do on_destory r; (λ st'. ok tt (record st' { rooms = update st'.rooms r none })))
                    st
            ])
    from st v none = v
    from st v (some room) =
        (Runs-bind (on_destory-Keeps r) λ x. record { run = λ st' v'. gone st' v' }).run st v

destory_each-Keeps : (rs : List ℕ) → Keeps Sound (destory_each rs)
unfolding destory_each
destory_each-Keeps [] = record { run = λ st v. v }
destory_each-Keeps (r ∷ rs) = Runs-bind (destory_room-Keeps r) λ x. destory_each-Keeps rs

-- What is done with the rooms of an expansion of the tree.
abbrev regrown : Watching → Tree → Outcome (Unit {0}) → Walk
regrown w t o = elim o [
  | ok y st ↦ walks (record w { tree = t; store = st })
  | deadlock ↦ crashes
  | fault ↦ crashes
  | stuck ↦ endless
]

regrown-Walked :
    (w : Watching) (t : Tree) (o : Outcome (Unit {0}))
    → Returned (λ x. Sound) o
    → Walked (regrown w t o)
regrown-Walked w t (ok y st) v = v
regrown-Walked w t deadlock v = tt
regrown-Walked w t fault v = tt
regrown-Walked w t stuck v = tt

abbrev grown : Watching → Grown (Unit {0}) → Walk
grown w g = elim g [
  | gives x t ↦ regrown w t (destory_each (drop (length w.tree.destoryed) t.destoryed) w.store)
  | Grown.dangling ↦ crashes
  | Grown.endless ↦ endless
]

grown-Walked : (w : Watching) (g : Grown (Unit {0})) → Sound w.store → Walked (grown w g)
grown-Walked w (gives x t) v =
    regrown-Walked w t _
      ((destory_each-Keeps (drop (length w.tree.destoryed) t.destoryed)).run w.store v)
grown-Walked w Grown.dangling v = tt
grown-Walked w Grown.endless v = tt

pub node_expanded-Walked :
    (fuel p : ℕ) (document : Option Document) (w : Watching)
    → Sound w.store
    → Walked (node_expanded fuel p document w)
unfolding node_expanded
node_expanded-Walked fuel p document w v =
    grown-Walked w (on_item_expanded fuel p document w.tree) v

module _ (service : Watching → ℕ → Option Document) (parent_of : ℕ → Option ℕ) where
  add_watched_room-Walked :
      (fuel r : ℕ) (w : Watching)
      → Sound w.store
      → Walked (add_watched_room service parent_of fuel r w)
  unfolding add_watched_room
  add_watched_room-Walked fuel r w v =
      Walked-if _ _ w.list.watching
        (Walked-option _ _ w.title_ctl v λ c. Walked-option _ _ w.node v λ n.
          Walked-option _ _ (below_watched_node fuel parent_of r n) tt
            λ below. Walked-if _ _ below v v)
        v

  room_watched-Walked :
      (fuel r : ℕ) (w : Watching) → Sound w.store → Walked (room_watched service parent_of fuel r w)
  unfolding room_watched
  room_watched-Walked fuel r w v =
      Walked-option _ _ (w.store.rooms r) tt
        λ room. Walked-option _ _ room.proxy v λ a. add_watched_room-Walked fuel r w v

  -- The body of OnWatched, with `watched` for the calls of the nodes below.
  module _ (watched : ℕ → Watching → Walk)
      (keep : (p : ℕ) (w : Watching) → Sound w.store → Walked (watched p w)) (fuel p : ℕ)
      (w : Watching) (v : Sound w.store) where
    expanded : Walk → Walk
    expanded o = elim o [
      | walks w' ↦ elim (w'.tree.at p) [
        | none ↦ crashes
        | some node' ↦ traverse_by watched (record w' {
          traverse_stack = push_nodes (reverse node'.nodes_order) w'.traverse_stack;
        })
      ]
      | crashes ↦ crashes
      | endless ↦ endless
    ]

    expanded-Walked : (o : Walk) → Walked o → Walked (expanded o)
    unfolding expanded
    expanded-Walked (walks w') v' =
        Walked-option _ _ (w'.tree.at p) tt λ node'. traverse_by-Walked watched keep _ v'
    expanded-Walked crashes v' = tt
    expanded-Walked endless v' = tt

    by_type :
        (node : Node) (k : NodeType)
        → Walked (elim k as (λ x. Walk) [
          | title_room ↦ room_watched service parent_of fuel p w
          | title_node ↦ expanded (node_expanded fuel p (service w node.id) w)
          | title ↦ walks w
          | title_user ↦ walks w
        ])
    by_type node title = v
    by_type node title_user = v
    by_type node title_room = room_watched-Walked fuel p w v
    by_type node title_node =
        expanded-Walked (node_expanded fuel p (service w node.id) w)
          (node_expanded-Walked fuel p (service w node.id) w v)

  on_watched-Walked :
      (fuel p : ℕ) (w : Watching) → Sound w.store → Walked (on_watched service parent_of fuel p w)
  unfolding on_watched expanded
  on_watched-Walked zero p w v = tt
  on_watched-Walked (suc fuel) p w v = Walked-option _ _ (w.tree.at p) tt λ node.
      by_type (on_watched service parent_of fuel) (on_watched-Walked fuel) fuel p w v node
        node.node_type

  pub on_traverse-Walked :
      (fuel : ℕ) (w : Watching) → Sound w.store → Walked (on_traverse service parent_of fuel w)
  unfolding on_traverse
  on_traverse-Walked fuel =
      traverse_by-Walked (on_watched service parent_of fuel) (on_watched-Walked fuel)

  pub begin_watching-Walked :
      (fuel n c : ℕ) (w : Watching)
      → Sound w.store
      → Walked (begin_watching service parent_of fuel n c w)
  unfolding begin_watching
  begin_watching-Walked fuel n c w v = on_watched-Walked fuel n _ v
