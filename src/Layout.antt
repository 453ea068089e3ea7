-- ===== src/Layout.antt =====
-- The layouts of the wall: how ScreenMgr places the windows of the screens
-- (Monitor/Monitor/ScreenMgr.cpp, with MoveToRect and HideWindow of Screen.cpp).
pub mod Grid
pub mod Changes
pub mod Examples
use real_time_monitor_agent.Base.{
  ℕ, zero, suc, ◌+◌, ◌*◌, ◌/◌, ◌^◌, List, [], ◌∷◌, Option, none, some, true, false, ltb, ◌==◌,
  if◌then◌else◌, get_elem?, Bool,
}
use real_time_monitor_agent.Base.Words.{add32, sub32, mul32}

abbrev pub top_side_size : ℕ
top_side_size = 30

abbrev pub side_size : ℕ
side_size = 8

-- `MININUM_PADDING`, which the constructor sets both paddings to.
abbrev pub minimum_padding : ℕ
minimum_padding = 0

abbrev pub minimum_tree_ctl_width : ℕ
minimum_tree_ctl_width = 200

abbrev pub maximal_screens : ℕ
maximal_screens = 15

-- A `CRect`, its sides as 32-bit patterns.
pub record Rect : Type 0 where
  pub left : ℕ
  pub top : ℕ
  pub right : ℕ
  pub bottom : ℕ

-- `round_t`.
pub record Round : Type 0 where
  pub h : ℕ
  pub v : ℕ

-- `num_blocks_`, as the constructor fills it, in the order of `enum_screen_mgr_resolution_t`.
abbrev pub num_blocks : List Round
num_blocks =
    record { h = 1; v = 1 }
    ∷ (record { h = 2; v = 2 }
        ∷ (record { h = 3; v = 3 } ∷ (record { h = 3; v = 3 } ∷ (record { h = 5; v = 3 } ∷ []))))

-- The windows: that of the tree control, and of each screen its place, if it is shown.
pub record Windows : Type 0 where
  pub titles : Rect
  pub screens : ℕ → Option Rect

abbrev pub show_titles : Rect → Windows → Windows
show_titles rect w = record w { titles = rect }

-- `Screen::MoveToRect` and `Screen::HideWindow`.
abbrev pub move_to_rect : ℕ → Rect → Windows → Windows
move_to_rect idx rect w = record w { screens = λ q. if idx == q then some rect else w.screens q }

abbrev pub hide_window : ℕ → Windows → Windows
hide_window idx w = record w { screens = λ q. if idx == q then none else w.screens q }

-- The rectangle of the tree control, beside `blocks` screens of this height.
abbrev titles_rect : ℕ → ℕ → Rect
titles_rect height blocks = record {
  left = 0;
  top = 0;
  right = minimum_tree_ctl_width;
  bottom = mul32 height blocks;
}

-- The body of the two loops of the grid layouts.
abbrev pub cell : ℕ → ℕ → ℕ → ℕ → Rect
cell width height row col =
    let left = add32 (add32 (mul32 col width) (mul32 col minimum_padding)) minimum_tree_ctl_width in
    let top = add32 (mul32 row height) (mul32 row minimum_padding) in
    record { left = left; top = top; right = add32 left width; bottom = add32 top height }

-- `idx` with the windows.
pub record Placing : Type 0 where
  pub idx : ℕ
  pub windows : Windows

abbrev pub place : Rect → Placing → Placing
place rect p = record { idx = p.idx + 1; windows = move_to_rect p.idx rect p.windows }

module _ (width height : ℕ) where
  -- The inner loop, with `left` rounds to go, and the outer one.
  unfoldable pub place_cols : ℕ → ℕ → ℕ → Placing → Placing
  place_cols zero row col p = p
  place_cols (suc left) row col p =
      place_cols left row (col + 1) (place (cell width height row col) p)

  unfoldable pub place_rows : ℕ → ℕ → ℕ → Placing → Placing
  place_rows zero cols row p = p
  place_rows (suc left) cols row p = place_rows left cols (row + 1) (place_cols cols row 0 p)

  unfoldable pub grid : ℕ → ℕ → ℕ → Windows → Windows
  grid rows cols blocks w =
      (place_rows rows cols 0
        (record { idx = 0; windows = show_titles (titles_rect height blocks) w })).windows

  unfoldable pub change_layout_1x1 : Windows → Windows
  change_layout_1x1 w =
      move_to_rect 0
        (record {
          left = minimum_tree_ctl_width;
          top = 0;
          right = add32 minimum_tree_ctl_width width;
          bottom = height;
        })
        (show_titles (titles_rect height 1) w)

  unfoldable pub change_layout_2x2 : Windows → Windows
  change_layout_2x2 w = grid 2 2 2 w

  -- The large screen, the two at its right, and the three below it.
  unfoldable pub change_layout_1x5 : Windows → Windows
  change_layout_1x5 w =
      let left₀ = minimum_tree_ctl_width in
      let right₀ = add32 (add32 left₀ (mul32 width 2)) minimum_padding in
      let bottom₀ = add32 (mul32 height 2) minimum_padding in
      let left₁ = add32 right₀ minimum_padding in
      let right₁ = add32 left₁ width in
      let top₂ = add32 height minimum_padding in
      let bottom₂ = add32 top₂ height in
      let right₃ = add32 left₀ width in
      let top₃ = add32 bottom₂ minimum_padding in
      let bottom₃ = add32 top₃ height in
      let left₄ = add32 right₃ minimum_padding in
      let right₄ = add32 left₄ width in
      let left₅ = add32 right₄ minimum_padding in
      let right₅ = add32 left₅ width in
      move_to_rect 5 (record { left = left₅; top = top₃; right = right₅; bottom = bottom₃ })
        (move_to_rect 4 (record { left = left₄; top = top₃; right = right₄; bottom = bottom₃ })
          (move_to_rect 3 (record { left = left₀; top = top₃; right = right₃; bottom = bottom₃ })
            (move_to_rect 2 (record { left = left₁; top = top₂; right = right₁; bottom = bottom₂ })
              (move_to_rect 1 (record { left = left₁; top = 0; right = right₁; bottom = height })
                (move_to_rect 0 (record { left = left₀; top = 0; right = right₀; bottom = bottom₀ })
                  (show_titles (titles_rect height 3) w))))))

  unfoldable pub change_layout_3x3 : Windows → Windows
  change_layout_3x3 w = grid 3 3 3 w

  unfoldable pub change_layout_3x5 : Windows → Windows
  change_layout_3x5 w = grid 3 5 3 w

  -- `screenmgr_func_array_`; `none`: an index past its end.
  unfoldable pub place_screens : ℕ → Windows → Option Windows
  place_screens res w =
      if res == 0
      then some (change_layout_1x1 w)
      else if res == 1
      then some (change_layout_2x2 w)
      else if res == 2
      then some (change_layout_1x5 w)
      else if res == 3
      then some (change_layout_3x3 w)
      else if res == 4
      then some (change_layout_3x5 w)
      else none

unfoldable pub hide_from : ℕ → ℕ → Windows → Windows
hide_from zero idx w = w
hide_from (suc left) idx w = hide_from left (idx + 1) (hide_window idx w)

unfoldable pub hide_all : Windows → Windows
hide_all w = hide_from maximal_screens 0 w

-- What ScreenMgr keeps of its layout.
pub record Manager : Type 0 where
  pub width : ℕ
  pub height : ℕ
  pub screen_mgr_res : ℕ
  pub active : Bool
  pub windows : Windows

-- The value of `ROUND(num, fraction)`, and what it leaves in `num`.
abbrev pub round_value : ℕ → ℕ → ℕ
round_value num fraction = num / fraction

abbrev pub rounded : ℕ → ℕ → ℕ
rounded num fraction = num / fraction * fraction

-- The windows of this width and height, with `num_blocks_` and the array of layouts at the index.
unfoldable pub lay_out : ℕ → ℕ → ℕ → Windows → Option Windows
lay_out res width height w = elim (get_elem? num_blocks res) [
  | none ↦ none
  | some divisor ↦
      place_screens (round_value (sub32 width minimum_tree_ctl_width) divisor.h)
        (round_value height divisor.v) res w
]

-- `none`: an index past the end of the arrays.
unfoldable pub change_layout : ℕ → Manager → Option Manager
change_layout resolution m =
    if m.screen_mgr_res == resolution
    then some m
    else elim (lay_out resolution m.width m.height (hide_all m.windows)) [
      | none ↦ none
      | some w ↦ some (record m { screen_mgr_res = resolution; windows = w })
    ]

-- With `cy` as it is left.
unfoldable pub adjest : ℕ → ℕ → Manager → Option (ℕ × Manager)
adjest cx cy m =
    if m.active
    then elim (get_elem? num_blocks m.screen_mgr_res) [
      | none ↦ none
      | some divisor ↦ elim (lay_out m.screen_mgr_res cx cy m.windows) [
        | none ↦ none
        | some w ↦ some (rounded cy divisor.v, record m { width = cx; height = cy; windows = w })
      ]
    ]
    else some (cy, m)

unfoldable pub get_suited_size : Rect → Manager → Option Rect
get_suited_size rect m =
    if m.active
    then elim (get_elem? num_blocks m.screen_mgr_res) [
      | none ↦ none
      | some divisor ↦
          let screens_width =
            sub32 (sub32 (sub32 rect.right rect.left) (2 * side_size)) minimum_tree_ctl_width in
          let height = sub32 (sub32 (sub32 rect.bottom rect.top) side_size) top_side_size in
          some (record rect {
            right =
                add32
                  (add32 (add32 rect.left minimum_tree_ctl_width) (rounded screens_width divisor.h))
                  (2 * side_size);
            bottom =
                add32 (add32 (add32 rect.top (rounded height divisor.v)) side_size) top_side_size;
          })
    ]
    else some rect
