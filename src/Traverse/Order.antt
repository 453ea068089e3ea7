-- ===== src/Traverse/Order.antt =====
-- OnTraverse comes to the rooms in the order of a walk in depth (Monitor/Monitor/WatchsList.cpp).
use mathlib.Core.List.{reverse, reverse-reverse, reverse-cons}
use real_time_monitor_agent.Base.{
  ℕ, zero, suc, ◌≡◌, refl, sym, ap, ◌∙◌, List, [], ◌∷◌, ◌++◌, Option, some, arith, append_assoc,
  length, drop,
}
use real_time_monitor_agent.Nodes.{title_node, title_room, Node, gives, Document, on_item_expanded}
use real_time_monitor_agent.Traverse.{
  Watching, walks, node_expanded, push_nodes, show_next, room_watched, on_traverse,
}

push_nodes-reverse_all : (ps stack : List ℕ) → push_nodes ps stack ≡ reverse ps ++ stack
unfolding push_nodes
push_nodes-reverse_all [] stack = refl
push_nodes-reverse_all (p ∷ ps) stack =
    push_nodes-reverse_all ps (p ∷ stack)
    ∙ sym (append_assoc (reverse ps) (p ∷ []) stack)
    ∙ ap (λ l. l ++ stack) (sym (reverse-cons p ps))

-- Pushing the nodes from the last to the first leaves them in order on the stack.
pub push_nodes-reverse : (ps stack : List ℕ) → push_nodes (reverse ps) stack ≡ ps ++ stack
push_nodes-reverse ps stack =
    push_nodes-reverse_all (reverse ps) stack ∙ ap (λ l. l ++ stack) (reverse-reverse ps)

-- Fuel for `depth` nodes one below the other and `k` more.
abbrev pub raised : ℕ → ℕ → ℕ
raised zero k = suc k
raised (suc depth) k = suc (raised depth k)

abbrev pub at_stack : Watching → List ℕ → Watching
at_stack w stack = record w { traverse_stack = stack }

drop-length : (l : List ℕ) → drop (length l) l ≡ []
drop-length [] = refl
drop-length (x ∷ l) = drop-length l

-- An expansion that leaves the tree as it is kicks no room out.
pub node_expanded_same :
    (fuel p : ℕ) (document : Option Document) (w : Watching)
    → on_item_expanded fuel p document w.tree ≡ gives tt w.tree
    → node_expanded fuel p document w ≡ walks w
unfolding node_expanded
node_expanded_same fuel p document w same = ground (arith, same, drop-length w.tree.destoryed)

module _ (service : Watching → ℕ → Option Document) (parent_of : ℕ → Option ℕ) where
  -- The rooms below the nodes `ps`, where OnItemExpanded leaves the tree of `w` as it is: those of the
  -- first node come first, and the children of a node in the order of its set.
  pub data Rooms (w : Watching) : List ℕ → List ℕ → Type 0 where
    no_rooms : Rooms w [] []
    a_room :
        (p : ℕ) (node : Node) (ps rs : List ℕ)
        → w.tree.at p ≡ some node
        → node.node_type ≡ title_room
        → Rooms w ps rs
        → Rooms w (p ∷ ps) (p ∷ rs)
    a_node :
        (p : ℕ) (node : Node) (ps rs : List ℕ)
        → w.tree.at p ≡ some node
        → node.node_type ≡ title_node
        → ((fuel : ℕ)
            → on_item_expanded fuel p (service (at_stack w ps) node.id) w.tree ≡ gives tt w.tree)
        → Rooms w (node.nodes_order ++ ps) rs
        → Rooms w (p ∷ ps) rs

  -- What one call of OnTraverse comes to with these nodes on the stack.
  pub data Comes (w : Watching) (stack : List ℕ) : List ℕ → Type 0 where
    to_none :
        (depth : ℕ)
        → ((k : ℕ)
            → on_traverse service parent_of (raised depth k) (at_stack w stack)
              ≡ show_next (at_stack w []))
        → Comes w stack []
    to_room :
        (depth r : ℕ) (rs later : List ℕ)
        → ((k : ℕ)
            → on_traverse service parent_of (raised depth k) (at_stack w stack)
              ≡ room_watched service parent_of k r (at_stack w later))
        → Rooms w later rs
        → Comes w stack (r ∷ rs)

  descends :
      (depth k p : ℕ) (node : Node) (ps : List ℕ) (w : Watching)
      → w.tree.at p ≡ some node
      → node.node_type ≡ title_node
      → on_item_expanded (raised depth k) p (service (at_stack w ps) node.id) w.tree
        ≡ gives tt w.tree
      → on_traverse service parent_of (raised (suc depth) k) (at_stack w (p ∷ ps))
        ≡ on_traverse service parent_of (raised depth k) (at_stack w (node.nodes_order ++ ps))
  unfolding on_traverse
  descends depth k p node ps w h kind same = ground (
    arith,
    node_expanded_same (raised depth k) p (service (at_stack w ps) node.id) (at_stack w ps) same,
    push_nodes-reverse node.nodes_order ps,
  )

  one_level :
      (p : ℕ) (node : Node) (ps rs : List ℕ) (w : Watching)
      → w.tree.at p ≡ some node
      → node.node_type ≡ title_node
      → ((fuel : ℕ)
          → on_item_expanded fuel p (service (at_stack w ps) node.id) w.tree ≡ gives tt w.tree)
      → Comes w (node.nodes_order ++ ps) rs
      → Comes w (p ∷ ps) rs
  one_level p node ps rs w h kind same (to_none depth e) =
      to_none (suc depth) λ k. descends depth k p node ps w h kind (same (raised depth k)) ∙ e k
  one_level p node ps rs w h kind same (to_room depth r rs' later e more) =
      to_room (suc depth) r rs' later
        (λ k. descends depth k p node ps w h kind (same (raised depth k)) ∙ e k) more

  -- OnTraverse, where OnItemExpanded changes nothing below the nodes on the stack: with enough fuel it
  -- comes to the first room of the walk in depth, and leaves a stack below which lie the others in
  -- their order; without a room it shows the next page.
  pub on_traverse-Comes : (w : Watching) (stack rs : List ℕ) → Rooms w stack rs → Comes w stack rs
  unfolding on_traverse
  on_traverse-Comes w stack rs no_rooms = to_none 0 (λ k. refl)
  on_traverse-Comes w stack rs (a_room p node ps rs' h kind more) =
      to_room 0 p rs' ps (λ k. ground (arith, h, kind)) more
  on_traverse-Comes w stack rs (a_node p node ps rs' h kind same below) =
      one_level p node ps rs w h kind same (on_traverse-Comes w (node.nodes_order ++ ps) rs below)
