-- ===== src/Traverse/Stale.antt =====
-- Nodes that were deleted and are still walked to (Monitor/Monitor/TitleNode.cpp), and a watched room
-- (Monitor/Monitor/WatchsList.cpp, Title.cpp).

use real_time_monitor_agent.Base.{
  ℕ, zero, suc, ◌<◌, ◌≡◌, refl, ap, ◌∙◌, List, [], ◌∷◌, ◌++◌, Option, none, some, Bool, true, false,
  ◌==◌, length, if◌then◌else◌, arith, inl, inr, List-cases,
}
use real_time_monitor_agent.Base.OrdMap.{lookup}
use real_time_monitor_agent.Store.{TitleRoom}
use real_time_monitor_agent.Nodes.{
  title_node, title_room, Node, Tree, gives, Document, Entry, has_id, kickout_redundant_nodes,
  on_item_expanded,
}
use real_time_monitor_agent.Nodes.Parents.{Parent}
use real_time_monitor_agent.Nodes.Expanding.{kickout-Kicked}
use real_time_monitor_agent.Watch.{cleans}
use real_time_monitor_agent.Traverse.{
  Watching, walks, crashes, of_page, on_watched, end_watching, begin_watching, below_watched_node,
}
use real_time_monitor_agent.Traverse.Order.{node_expanded_same, push_nodes-reverse}

-- The nodes above `p`, the nearest first.
pub data Above (parent_of : ℕ → Option ℕ) : ℕ → List ℕ → Type 0 where
  root : (p : ℕ) → parent_of p ≡ none → Above parent_of p []
  below :
      (p q : ℕ) (above : List ℕ)
      → parent_of p ≡ some q
      → Above parent_of q above
      → Above parent_of p (q ∷ above)

unfoldable pub contains : ℕ → List ℕ → Bool
contains n [] = false
contains n (q ∷ qs) = if q == n then true else contains n qs

below_watched_node-Above :
    (fuel p n : ℕ) (parent_of : ℕ → Option ℕ) (above : List ℕ)
    → length above < fuel
    → Above parent_of p above
    → below_watched_node fuel parent_of p n ≡ some (contains n above)
unfolding below_watched_node contains
below_watched_node-Above zero p n parent_of above enough a = absurd (omega arith)
below_watched_node-Above (suc fuel) p n parent_of above enough (root _ e) = ground (arith, e)
below_watched_node-Above (suc fuel) p n parent_of above enough (below _ q qs e a) =
    ground (arith, e, below_watched_node-Above fuel q n parent_of qs (omega arith) a)

module _ (service : Watching → ℕ → Option Document) (parent_of : ℕ → Option ℕ) where
  -- Begin on a room that a proxy serves and that is not above itself: the list is emptied and the screens
  -- are cleaned, but the room does not come into the list and the walk is not continued.
  pub begin_watching-hides :
      (fuel r c a : ℕ) (above : List ℕ) (node : Node) (room : TitleRoom) (w : Watching)
      → Above parent_of r above
      → contains r above ≡ false
      → length above < fuel
      → w.tree.at r ≡ some node
      → node.node_type ≡ title_room
      → w.store.rooms r ≡ some room
      → room.proxy ≡ some a
      → (w' : Watching) × (begin_watching service parent_of (suc fuel) r c w ≡ walks w')
        × (w'.list ≡ record { watching = true; page = 0; rooms = [] })
        × (w'.posts ≡ w.posts ++ (of_page cleans ∷ []))
        × (w'.store ≡ w.store)
  unfolding begin_watching
  begin_watching-hides fuel r c a above node room w chain other enough h kind hr served = (
    record (end_watching w) {
      node = some r;
      title_ctl = some c;
      list = record { watching = true; page = 0; rooms = [] };
    },
    ground (
      arith,
      h,
      kind,
      hr,
      served,
      below_watched_node-Above fuel r r parent_of above enough chain,
      other,
    ),
    refl,
    refl,
    refl,
  )

-- OnItemExpanded of a node that has entries, when the response does not load.
expands_none :
    (fuel n id q : ℕ) (node : Node) (t : Tree)
    → t.at n ≡ some node
    → lookup id node.nodes ≡ some q
    → on_item_expanded fuel n none t ≡ gives tt t
unfolding on_item_expanded lookup
expands_none fuel n id q node t h found = elim (List-cases node.nodes) [
  | inl nothing ↦ absurd (cc (found, ap (lookup id) nothing))
  | inr (x, xs, some_left) ↦ ground (arith, h, some_left)
]

module _ (parent_of : ℕ → Option ℕ) where
  walks_to_deleted :
      (k n p : ℕ) (ps : List ℕ) (node : Node) (w : Watching)
      → w.tree.at n ≡ some node
      → node.node_type ≡ title_node
      → node.nodes_order ≡ p ∷ ps
      → on_item_expanded (suc k) n none w.tree ≡ gives tt w.tree
      → w.tree.at p ≡ none
      → on_watched (λ w' i. none) parent_of (suc (suc k)) n w ≡ crashes
  unfolding on_watched
  walks_to_deleted k n p ps node w h kind order same deleted = ground (
    arith,
    node_expanded_same (suc k) n none w same,
    push_nodes-reverse node.nodes_order w.traverse_stack,
  )

  -- A node whose entries are rooms, of which the one whose room comes first in its set is not listed in
  -- a new response, and another one is. KickoutRedundantNodes deletes the room and leaves it in the
  -- set: when the node is watched and its response does not load, OnTraverse uses the deleted room.
  pub kickout_redundant_nodes-leaves :
      (n id p id' q fuel k : ℕ) (es : List Entry) (ps : List ℕ) (node : Node) (w : Watching)
      → Parent n node w.tree
      → node.node_type ≡ title_node
      → node.nodes_order ≡ p ∷ ps
      → lookup id node.nodes ≡ some p
      → has_id id es ≡ false
      → lookup id' node.nodes ≡ some q
      → has_id id' es ≡ true
      → (t : Tree) × (kickout_redundant_nodes (suc fuel) n es w.tree ≡ gives tt t)
        × (t.at p ≡ none)
        × (on_watched (λ w' i. none) parent_of (suc (suc k)) n (record w { tree = t }) ≡ crashes)
  unfolding kickout_redundant_nodes
  kickout_redundant_nodes-leaves n id p id' q fuel k es ps node w v kind order found missing found'
        listed =
      let (t, node', e, left) =
        kickout-Kicked n fuel es node.nodes node w.tree v v.keyed (λ i x y. y) in
      let deleted : t.at p ≡ none = (left.gone id p found missing).1 in
      (
        t,
        ground (arith, e, v.here),
        deleted,
        walks_to_deleted k n p ps node' (record w { tree = t }) left.parent.here (left.kind ∙ kind)
            (left.order ∙ order)
            (expands_none (suc k) n id' q node' t left.parent.here (left.kept id' listed ∙ found'))
            deleted,
      )
