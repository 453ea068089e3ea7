-- ===== src/Layout/Changes.antt =====
-- ChangeLayout to one of the grids.
use real_time_monitor_agent.Base.{
  ℕ, zero, suc, ◌+◌, ◌*◌, ◌/◌, ◌^◌, ◌≤◌, ◌<◌, ◌≡◌, ◌≢◌, refl, ◌∙◌, none, some, arith, ◌⊎◌, inl, inr,
}
use native.Mathlib.Decide.{dec_lt}
use native.Mathlib.Nat.{mul-div-le}
use real_time_monitor_agent.Base.Words.{sub32}
use real_time_monitor_agent.Layout.{
  Rect, Windows, Manager, cell, grid, minimum_tree_ctl_width, maximal_screens, hide_from, hide_all,
  hide_window, lay_out, place_screens, change_layout, change_layout_2x2, change_layout_3x3,
  change_layout_3x5,
}
use real_time_monitor_agent.Layout.Grid.{grid-cells, Apart, Inside, cell-Inside, cells-Apart}

hide_from-none :
    (left idx : ℕ) (w : Windows) (s : ℕ)
    → ((idx ≤ s) × (s < idx + left)) ⊎ (w.screens s ≡ none)
    → (hide_from left idx w).screens s ≡ none
unfolding hide_from
hide_from-none zero idx w s (inl (h, k)) = absurd (omega arith)
hide_from-none zero idx w s (inr h) = h
hide_from-none (suc left) idx w s h = hide_from-none left (idx + 1) (hide_window idx w) s (next h)
  where
    next :
        ((idx ≤ s) × (s < idx + suc left)) ⊎ (w.screens s ≡ none)
        → ((idx + 1 ≤ s) × (s < idx + 1 + left)) ⊎ ((hide_window idx w).screens s ≡ none)
    next (inl (h, k)) = elim (dec_lt idx s) [
      | yes later ↦ inl (omega arith, omega arith)
      | no first ↦ inr (ground arith)
    ]
    next (inr h) = inr (ground arith)

-- The grids: the index of the layout, its rows and its columns.
pub data IsGrid : ℕ → ℕ → ℕ → Type 0 where
  grid_2x2 : IsGrid 1 2 2
  grid_3x3 : IsGrid 3 3 3
  grid_3x5 : IsGrid 4 3 5

lay_out-grid :
    (res rows cols width height : ℕ) (w : Windows)
    → IsGrid res rows cols
    → lay_out res width height w
      ≡ some (grid (sub32 width minimum_tree_ctl_width / cols) (height / rows) rows cols rows w)
unfolding lay_out place_screens change_layout_2x2 change_layout_3x3 change_layout_3x5
lay_out-grid _ _ _ width height w grid_2x2 = refl
lay_out-grid _ _ _ width height w grid_3x3 = refl
lay_out-grid _ _ _ width height w grid_3x5 = refl

-- What the layout shows: `width` and `height` are those of the client area.
pub record Tiles (rows cols width height : ℕ) (w : Windows) : Type 0 where
  pub place_of : ℕ → ℕ → Rect
  pub shown : (r c : ℕ) → r < rows → c < cols → w.screens (r * cols + c) ≡ some (place_of r c)
  pub hidden : (s : ℕ) → rows * cols ≤ s → s < maximal_screens → w.screens s ≡ none
  pub inside : (r c : ℕ) → r < rows → c < cols → Inside width height (place_of r c)
  pub apart :
      (r c r' c' : ℕ)
      → r < rows
      → c < cols
      → r' < rows
      → c' < cols
      → (r ≢ r') ⊎ (c ≢ c')
      → Apart (place_of r c) (place_of r' c')

-- ChangeLayout to another layout that is a grid, in a window that is not narrower than the tree
-- control: it succeeds, the screens of the grid are shown, inside the client area and right of the
-- tree control, no two of them overlap, and all other screens are hidden.
pub change_layout-Tiles :
    (res rows cols : ℕ) (m : Manager)
    → IsGrid res rows cols
    → m.screen_mgr_res ≢ res
    → minimum_tree_ctl_width ≤ m.width
    → m.width < 2 ^ 32
    → m.height < 2 ^ 32
    → (m' : Manager) × (change_layout res m ≡ some m')
      × (m'.screen_mgr_res ≡ res)
      × Tiles rows cols m.width m.height m'.windows
unfolding change_layout
change_layout-Tiles res rows cols m g other wide fits fits' = (
  record m { screen_mgr_res = res; windows = windows },
  ground (arith, lay_out-grid res rows cols m.width m.height (hide_all m.windows) g),
  refl,
  record {
    place_of = cell width height;
    shown = λ r c h k. cells.0 r c h k;
    hidden = λ s h k.
        cells.1 s h
        ∙ unfold hide_all in
          hide_from-none maximal_screens 0 m.windows s (inl (omega arith, omega arith));
    inside = λ r c h k.
        inside_window (cell-Inside width height rows cols wide_enough high_enough r c h k);
    apart = λ r c r' c' h k h' k' ne.
        cells-Apart width height rows cols wide_enough high_enough r c r' c' h k h' k' ne;
  },
)
  where
    width : ℕ
    width = sub32 m.width minimum_tree_ctl_width / cols

    height : ℕ
    height = m.height / rows

    spanned : cols * width ≤ sub32 m.width minimum_tree_ctl_width
    spanned = mul-div-le (sub32 m.width minimum_tree_ctl_width) cols

    spanned_rows : rows * height ≤ m.height
    spanned_rows = mul-div-le m.height rows

    wide_enough : minimum_tree_ctl_width + cols * width < 2 ^ 32
    wide_enough = omega (arith, spanned)

    high_enough : rows * height < 2 ^ 32
    high_enough = omega (arith, spanned_rows)

    inside_window :
        {a : Rect}
        → Inside (minimum_tree_ctl_width + cols * width) (rows * height) a
        → Inside m.width m.height a
    inside_window (h₁, h₂, h₃, h₄, h₅) =
        (h₁, h₂, omega (arith, h₃, spanned), h₄, omega (arith, h₅, spanned_rows))

    windows : Windows
    windows = grid width height rows cols rows (hide_all m.windows)

    cells :
        ((r c : ℕ)
          → r < rows
          → c < cols
          → windows.screens (r * cols + c) ≡ some (cell width height r c))
        × ((s : ℕ) → rows * cols ≤ s → windows.screens s ≡ (hide_all m.windows).screens s)
    cells = grid-cells width height rows cols rows (hide_all m.windows)
