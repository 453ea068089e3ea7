-- ===== src/Watch/Window.antt =====
-- The users of a page: what the loop of OnShowPage over one room sends.
use real_time_monitor_agent.Base.{
  ℕ, zero, suc, ◌+◌, ◌-◌, ◌^◌, ◌≤◌, ◌<◌, ◌≡◌, refl, sym, ap, ◌∙◌, List, [], ◌∷◌, ◌++◌, arith,
  length, take, drop, append-nil,
}
use native.Mathlib.Decide.{dec_lt}
use mathlib.Core.Path.{ap₂, subst}
use real_time_monitor_agent.Base.Words.{add32}
use real_time_monitor_agent.Store.{success, einval, maximal_screen_num}
use real_time_monitor_agent.Watch.{
  Message, watches, Shown, behind_messages, watch_message, show_users,
}

-- Users on the screens from `n` on.
abbrev pub numbered : ℕ → List (ℕ × ℕ) → List Message
numbered n [] = []
numbered n ((k, p) ∷ users) = watches p n ∷ numbered (n + 1) users

-- What is sent for users of which the first has the number `offset`, on the page that begins with
-- the number `first`.
abbrev pub window : ℕ → ℕ → List (ℕ × ℕ) → List Message
window first offset users =
    numbered (offset - first)
      (take (maximal_screen_num - (offset - first)) (drop (first - offset) users))

window-before :
    (first offset k p : ℕ) (users : List (ℕ × ℕ))
    → offset < first
    → window first offset ((k, p) ∷ users) ≡ window first (offset + 1) users
window-before first offset k p users h =
    let same : offset - first ≡ offset + 1 - first = omega arith in
    let step : first - offset ≡ suc (first - (offset + 1)) = omega arith in
    ap₂ (λ n m. numbered n (take (maximal_screen_num - n) (drop m ((k, p) ∷ users)))) same step

window-inside :
    (first offset k p : ℕ) (users : List (ℕ × ℕ))
    → first ≤ offset
    → offset < first + maximal_screen_num
    → window first offset ((k, p) ∷ users)
      ≡ watches p (offset - first) ∷ window first (offset + 1) users
window-inside first offset k p users h h' =
    let here : first - offset ≡ 0 = omega arith in
    let room : maximal_screen_num - (offset - first)
        ≡ suc (maximal_screen_num - (offset + 1 - first)) =
      omega arith in
    let next : offset - first + 1 ≡ offset + 1 - first = omega arith in
    let later : 0 ≡ first - (offset + 1) = omega arith in
    ap₂ (λ n m. numbered (offset - first) (take n (drop m ((k, p) ∷ users)))) room here
    ∙ ap₂
        (λ n m.
          watches p (offset - first)
          ∷ numbered n (take (maximal_screen_num - (offset + 1 - first)) (drop m users)))
        next later

pub window-past :
    (first offset : ℕ) (users : List (ℕ × ℕ))
    → first + maximal_screen_num ≤ offset
    → window first offset users ≡ []
window-past first offset users h =
    let none_left : maximal_screen_num - (offset - first) ≡ 0 = omega arith in
    ap (λ n. numbered (offset - first) (take n (drop (first - offset) users))) none_left

-- What the loop over one room does, if the page is not full yet.
pub record Showing (first offset : ℕ) (users : List (ℕ × ℕ)) (s : Shown) : Type 0 where
  pub sends : s.messages ≡ window first offset users
  pub goes_on :
      offset + length users < first + maximal_screen_num
      → (s.status ≡ success) × (s.offset ≡ offset + length users)
  pub stops : first + maximal_screen_num ≤ offset + length users → s.status ≡ einval

pub window-nil : (first offset : ℕ) → window first offset [] ≡ []
window-nil first offset = none (maximal_screen_num - (offset - first)) (first - offset)
  where
    take_nil : (n : ℕ) → ◌≡◌ {A = List (ℕ × ℕ)} (take n []) []
    take_nil zero = refl
    take_nil (suc n) = refl

    none : (n m : ℕ) → numbered (offset - first) (take n (drop m [])) ≡ []
    none n zero = ap (numbered (offset - first)) (take_nil n)
    none n (suc m) = ap (numbered (offset - first)) (take_nil n)

-- One round adds the message for its user, if the page has begun.
window-round :
    (first offset k p : ℕ) (users : List (ℕ × ℕ))
    → offset < first + maximal_screen_num
    → first + maximal_screen_num < 2 ^ 32
    → watch_message p offset first ++ window first (offset + 1) users
      ≡ window first offset ((k, p) ∷ users)
window-round first offset k p users h fits = elim (dec_lt offset first) [
  | yes before ↦
      let silent : watch_message p offset first ≡ [] = ground arith in
      ap (λ ms. ms ++ window first (offset + 1) users) silent
      ∙ sym (window-before first offset k p users before)
  | no inside ↦
      let speaks : watch_message p offset first ≡ watches p (offset - first) ∷ [] = ground arith in
      ap (λ ms. ms ++ window first (offset + 1) users) speaks
      ∙ sym (window-inside first offset k p users (omega arith) h)
]

show_users_more :
    (users : List (ℕ × ℕ)) (k p offset first : ℕ)
    → offset + 1 < first + maximal_screen_num
    → first + maximal_screen_num < 2 ^ 32
    → show_users ((k, p) ∷ users) offset first
      ≡ behind_messages (watch_message p offset first) (show_users users (offset + 1) first)
unfolding show_users
show_users_more users k p offset first h fits =
    more ∙ ap (λ n. behind_messages (watch_message p offset first) (show_users users n first)) next
  where
    next : add32 offset 1 ≡ offset + 1
    next = omega arith

    more :
        show_users ((k, p) ∷ users) offset first
        ≡ behind_messages (watch_message p offset first) (show_users users (add32 offset 1) first)
    more = ground arith

show_users_full :
    (users : List (ℕ × ℕ)) (k p offset first : ℕ)
    → offset + 1 ≡ first + maximal_screen_num
    → first + maximal_screen_num < 2 ^ 32
    → show_users ((k, p) ∷ users) offset first
      ≡ record { status = einval; offset = add32 offset 1; messages = watch_message p offset first }
unfolding show_users
show_users_full users k p offset first h fits = ground arith

pub show_users-Showing :
    (users : List (ℕ × ℕ)) (offset first : ℕ)
    → offset < first + maximal_screen_num
    → first + maximal_screen_num < 2 ^ 32
    → Showing first offset users (show_users users offset first)
show_users-Showing [] offset first h fits =
    unfold show_users in
    record {
      sends = sym (window-nil first offset);
      goes_on = λ k. (refl, omega arith);
      stops = λ k. absurd (omega arith);
    }
show_users-Showing ((k, p) ∷ users) offset first h fits =
    elim (dec_lt (offset + 1) (first + maximal_screen_num)) [
      | yes more ↦
          let s = show_users-Showing users (offset + 1) first more fits in
          subst (Showing first offset ((k, p) ∷ users))
            (sym (show_users_more users k p offset first more fits))
            (record {
              sends =
                  ap (λ ms. watch_message p offset first ++ ms) s.sends
                  ∙ window-round first offset k p users h fits;
              goes_on =
                  λ e. ((s.goes_on (omega arith)).0, (s.goes_on (omega arith)).1 ∙ omega arith);
              stops = λ e. s.stops (omega arith);
            })
      | no full ↦
          let last : offset + 1 ≡ first + maximal_screen_num = omega arith in
          subst (Showing first offset ((k, p) ∷ users))
            (sym (show_users_full users k p offset first last fits))
            (record {
              sends =
                  sym (append-nil (watch_message p offset first))
                  ∙ ap (λ ms. watch_message p offset first ++ ms)
                      (sym (window-past first (offset + 1) users (omega arith)))
                  ∙ window-round first offset k p users h fits;
              goes_on = λ e. absurd (omega arith);
              stops = λ e. refl;
            })
    ]

-- The window of two rooms, one behind the other.
pub window-append :
    (first offset : ℕ) (users later : List (ℕ × ℕ))
    → window first offset (users ++ later)
      ≡ window first offset users ++ window first (offset + length users) later
window-append first offset [] later =
    ap (λ n. window first n later) (omega arith)
    ∙ ap (λ ms. ms ++ window first (offset + 0) later) (sym (window-nil first offset))
window-append first offset ((k, p) ∷ users) later = elim (dec_lt offset first) [
  | yes before ↦
      window-before first offset k p (users ++ later) before
      ∙ window-append first (offset + 1) users later
      ∙ ap₂ ◌++◌ (sym (window-before first offset k p users before))
          (ap (λ n. window first n later) (omega arith))
  | no begun ↦ elim (dec_lt offset (first + maximal_screen_num)) [
    | yes inside ↦
        window-inside first offset k p (users ++ later) (omega arith) inside
        ∙ ap (λ ms. watches p (offset - first) ∷ ms) (window-append first (offset + 1) users later)
        ∙ ap₂ ◌++◌ (sym (window-inside first offset k p users (omega arith) inside))
            (ap (λ n. window first n later) (omega arith))
    | no past ↦
        window-past first offset ((k, p) ∷ (users ++ later)) (omega arith)
        ∙ sym (
            ap₂ ◌++◌ (window-past first offset ((k, p) ∷ users) (omega arith))
              (window-past first (offset + suc (length users)) later (omega arith)))
  ]
]

-- Users that all lie before the page.
pub window-none :
    (first offset : ℕ) (users : List (ℕ × ℕ))
    → offset + length users ≤ first
    → window first offset users ≡ []
window-none first offset [] h = window-nil first offset
window-none first offset ((k, p) ∷ users) h =
    window-before first offset k p users (omega arith)
    ∙ window-none first (offset + 1) users (omega arith)
