-- ===== src/Layout/Grid.antt =====
-- The grid layouts: which screens they show, and that the places do not overlap.
use real_time_monitor_agent.Base.{
  ℕ, zero, suc, ◌+◌, ◌*◌, ◌^◌, ◌≤◌, ◌<◌, ◌≡◌, ◌≢◌, refl, ap, ◌∙◌, some, arith, ◌⊎◌, inl, inr,
}
use native.Mathlib.Decide.{dec_lt}
use native.Mathlib.Nat.{mul-le-mul_right}
use real_time_monitor_agent.Layout.{
  Rect, Windows, Placing, cell, place, place_cols, place_rows, grid, minimum_tree_ctl_width,
}

module _ (width height : ℕ) where
  -- What the inner loop does from the screen `p.idx` on.
  record Cols (left row col : ℕ) (p q : Placing) : Type 0 where
    next : q.idx ≡ p.idx + left
    placed :
        (s c : ℕ)
        → p.idx ≤ s
        → s < p.idx + left
        → c + p.idx ≡ col + s
        → q.windows.screens s ≡ some (cell width height row c)
    before : (s : ℕ) → s < p.idx → q.windows.screens s ≡ p.windows.screens s
    after : (s : ℕ) → p.idx + left ≤ s → q.windows.screens s ≡ p.windows.screens s

  place_cols-Cols :
      (left row col : ℕ) (p : Placing)
      → Cols left row col p (place_cols width height left row col p)
  unfolding place_cols
  place_cols-Cols zero row col p = record {
    next = omega arith;
    placed = λ s c h k e. absurd (omega arith);
    before = λ s h. refl;
    after = λ s h. refl;
  }
  place_cols-Cols (suc left) row col p =
      let l = place_cols-Cols left row (col + 1) (place (cell width height row col) p) in
      record {
        next = omega (arith, l.next);
        placed = λ s c h k e. elim (dec_lt p.idx s) [
          | yes later ↦ l.placed s c (omega arith) (omega arith) (omega arith)
          | no first ↦
              let same : col ≡ c = omega arith in
              let here : (place (cell width height row col) p).windows.screens s
                  ≡ some (cell width height row col) =
                ground arith in
              l.before s (omega arith) ∙ here ∙ ap (λ x. some (cell width height row x)) same
        ];
        before = λ s h. ground (arith, l.before s (omega arith));
        after = λ s h. ground (arith, l.after s (omega arith));
      }

  -- What the outer loop does.
  record Rows (left cols row : ℕ) (p q : Placing) : Type 0 where
    placed :
        (s r c : ℕ)
        → row ≤ r
        → r < row + left
        → c < cols
        → s + row * cols ≡ p.idx + (r * cols + c)
        → q.windows.screens s ≡ some (cell width height r c)
    before : (s : ℕ) → s < p.idx → q.windows.screens s ≡ p.windows.screens s
    after : (s : ℕ) → p.idx + left * cols ≤ s → q.windows.screens s ≡ p.windows.screens s

  place_rows-Rows :
      (left cols row : ℕ) (p : Placing)
      → Rows left cols row p (place_rows width height left cols row p)
  unfolding place_rows
  place_rows-Rows zero cols row p = record {
    placed = λ s r c h k l e. absurd (omega arith);
    before = λ s h. refl;
    after = λ s h. refl;
  }
  place_rows-Rows (suc left) cols row p =
      let inner = place_cols-Cols cols row 0 p in
      let outer = place_rows-Rows left cols (row + 1) (place_cols width height cols row 0 p) in
      record {
        placed = λ s r c h k l e. elim (dec_lt row r) [
          | yes later ↦ outer.placed s r c (omega arith) (omega arith) l (omega (arith, inner.next))
          | no first ↦
              let same : row ≡ r = omega arith in
              let products : row * cols ≡ r * cols = ap (λ x. x * cols) same in
              outer.before s (omega (arith, inner.next))
              ∙ inner.placed s c (omega arith) (omega arith) (omega arith)
              ∙ ap (λ x. some (cell width height x c)) same
        ];
        before = λ s h. outer.before s (omega (arith, inner.next)) ∙ inner.before s h;
        after = λ s h. outer.after s (omega (arith, inner.next)) ∙ inner.after s (omega arith);
      }

  -- Every screen of the grid is shown in its cell, and no other screen is moved.
  pub grid-cells :
      (rows cols blocks : ℕ) (w : Windows)
      → ((r c : ℕ)
          → r < rows
          → c < cols
          → (grid width height rows cols blocks w).screens (r * cols + c)
            ≡ some (cell width height r c))
        × ((s : ℕ)
            → rows * cols ≤ s
            → (grid width height rows cols blocks w).screens s ≡ w.screens s)
  unfolding grid
  grid-cells rows cols blocks w =
      let all = place_rows-Rows rows cols 0 (record { idx = 0; windows = _ }) in
      (
        (λ r c h k. all.placed (r * cols + c) r c (omega arith) (omega arith) k (omega arith)),
        λ s h. all.after s (omega arith),
      )

-- Two rectangles that have no point inside in common.
abbrev pub Apart : Rect → Rect → Type 0
Apart a b = ((a.right ≤ b.left) ⊎ (b.right ≤ a.left)) ⊎ ((a.bottom ≤ b.top) ⊎ (b.bottom ≤ a.top))

-- Inside the client area right of the tree control.
abbrev pub Inside : ℕ → ℕ → Rect → Type 0
Inside right bottom a =
    (minimum_tree_ctl_width ≤ a.left)
    × (a.left ≤ a.right)
    × (a.right ≤ right)
    × (a.top ≤ a.bottom)
    × (a.bottom ≤ bottom)

module _ (width height rows cols : ℕ) (wide : minimum_tree_ctl_width + cols * width < 2 ^ 32)
    (high : rows * height < 2 ^ 32) where
  -- A cell of the grid, without the wrap-around.
  record Placed (r c : ℕ) : Type 0 where
    left : (cell width height r c).left ≡ minimum_tree_ctl_width + c * width
    right : (cell width height r c).right ≡ minimum_tree_ctl_width + suc c * width
    top : (cell width height r c).top ≡ r * height
    bottom : (cell width height r c).bottom ≡ suc r * height
    right_fits : suc c * width ≤ cols * width
    bottom_fits : suc r * height ≤ rows * height

  cell-Placed : (r c : ℕ) → r < rows → c < cols → Placed r c
  cell-Placed r c h k =
      let fits : suc c * width ≤ cols * width = mul-le-mul_right width (omega arith) in
      let fits' : suc r * height ≤ rows * height = mul-le-mul_right height (omega arith) in
      record {
        left = omega arith;
        right = omega arith;
        top = omega arith;
        bottom = omega arith;
        right_fits = fits;
        bottom_fits = fits';
      }

  pub cell-Inside :
      (r c : ℕ)
      → r < rows
      → c < cols
      → Inside (minimum_tree_ctl_width + cols * width) (rows * height) (cell width height r c)
  cell-Inside r c h k =
      let p = cell-Placed r c h k in
      (
        omega (arith, p.left),
        omega (arith, p.left, p.right),
        omega (arith, p.right, p.right_fits),
        omega (arith, p.top, p.bottom),
        omega (arith, p.bottom, p.bottom_fits),
      )

  pub cells-Apart :
      (r c r' c' : ℕ)
      → r < rows
      → c < cols
      → r' < rows
      → c' < cols
      → (r ≢ r') ⊎ (c ≢ c')
      → Apart (cell width height r c) (cell width height r' c')
  cells-Apart r c r' c' h k h' k' ne =
      let p = cell-Placed r c h k in
      let q = cell-Placed r' c' h' k' in
      elim (dec_lt r r') [
        | yes above ↦
            let gap : suc r * height ≤ r' * height = mul-le-mul_right height (omega arith) in
            inr (inl (omega (arith, p.bottom, q.top)))
        | no not_above ↦ elim (dec_lt r' r) [
          | yes below ↦
              let gap : suc r' * height ≤ r * height = mul-le-mul_right height (omega arith) in
              inr (inr (omega (arith, q.bottom, p.top)))
          | no not_below ↦ elim (dec_lt c c') [
            | yes before ↦
                let gap : suc c * width ≤ c' * width = mul-le-mul_right width (omega arith) in
                inl (inl (omega (arith, p.right, q.left)))
            | no not_before ↦
                let same_row : r ≡ r' = omega arith in
                let right_of : suc c' ≤ c = elim ne [
                  | inl d ↦ absurd (d same_row)
                  | inr d ↦ omega (arith, d)
                ] in
                let gap : suc c' * width ≤ c * width = mul-le-mul_right width right_of in
                inl (inr (omega (arith, q.right, p.left)))
          ]
        ]
      ]
