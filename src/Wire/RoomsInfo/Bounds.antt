-- ===== src/Wire/RoomsInfo/Bounds.antt =====
-- The loops of RoomsInfoParameter on any bytes: they end, and a room that claims 256 users or
-- more is read past the end of the storage.
use real_time_monitor_agent.Base.{
  ℕ, zero, suc, ◌+◌, ◌≤◌, ◌<◌, ◌≡◌, ◌≢◌, refl, sym, ◌∙◌, List, [], ◌++◌, arith, length, length-drop,
}
use native.Mathlib.Decide.{dec_lt}
use mathlib.Core.Path.{subst}
use real_time_monitor_agent.Base.Words.{IsU32}
use real_time_monitor_agent.Wire.Messages.{at, reads_4}
use real_time_monitor_agent.Wire.Order.{NetOrder, network_bytes}
use real_time_monitor_agent.Wire.Cursor.{
  Cursor, Parse, parsed, outside, stuck, Parser, ◌>>=◌, ntoh_assign,
}
use real_time_monitor_agent.Wire.Parameters.{tcp_parameter}
use real_time_monitor_agent.Wire.RoomsInfo.Loops.{
  users_loop_more, users_loop_done, rooms_loop_more, rooms_loop_done,
}
use real_time_monitor_agent.Wire.RoomsInfo.{
  UserInfo, RoomInfo, user_info, users_loop, room_info, rooms_loop, rooms_info_parameter, all_users,
  all_rooms,
}

-- A read that ends, and takes `n` bytes at least if it succeeds.
abbrev Takes : {A : Type 0} → ℕ → Cursor → Parse A → Type 0
Takes n c (parsed a d) = length d.memory + n ≤ length c.memory
Takes n c outside = Unit {0}
Takes n c stuck = ⊥

bind-Takes :
    {A B : Type 0} (m : Parser A) (f : A → Parser B) (n k : ℕ) (c : Cursor)
    → Takes n c (m c)
    → ((a : A) (d : Cursor) → length d.memory + n ≤ length c.memory → Takes k d (f a d))
    → Takes (n + k) c ((m >>= f) c)
bind-Takes {A} {B} m f n k c h next = go (m c) h
  where
    weaken :
        (d : Cursor) (r : Parse B)
        → length d.memory + n ≤ length c.memory
        → Takes k d r
        → Takes (n + k) c r
    weaken d (parsed b e) le t = omega arith
    weaken d outside le t = tt
    weaken d stuck le t = t

    go :
        (r : Parse A)
        → Takes n c r
        → Takes (n + k) c (elim r [ parsed a d ↦ f a d | outside ↦ outside | stuck ↦ stuck ])
    go (parsed a d) t = weaken d (f a d) t (next a d t)
    go outside t = tt
    go stuck t = t

module _ (o : NetOrder) where
  ntoh_assign-Takes : (n : ℕ) (c : Cursor) → Takes n c (ntoh_assign o n c)
  unfolding ntoh_assign
  ntoh_assign-Takes n c = ground (arith, length-drop n c.memory)

  user_info-Takes : (c : Cursor) → Takes 20 c (user_info o c)
  unfolding user_info
  user_info-Takes c = bind-Takes (ntoh_assign o 8) _ 8 12 c (ntoh_assign-Takes 8 c) λ _ d le.
      bind-Takes (ntoh_assign o 4) _ 4 8 d (ntoh_assign-Takes 4 d) λ _ e _.
        bind-Takes (ntoh_assign o 4) _ 4 4 e (ntoh_assign-Takes 4 e) λ _ f _.
          bind-Takes (ntoh_assign o 4) _ 4 0 f (ntoh_assign-Takes 4 f) λ _ g le. omega arith

  Takes-weaken :
      {A : Type 0} (n k : ℕ) (c : Cursor) (r : Parse A) → k ≤ n → Takes n c r → Takes k c r
  Takes-weaken n k c (parsed a d) h t = omega arith
  Takes-weaken n k c outside h t = tt
  Takes-weaken n k c stuck h t = t

  users_loop-Takes :
      (fuel count j : ℕ) (us : List UserInfo) (c : Cursor)
      → length c.memory < fuel
      → Takes 0 c (users_loop o fuel count j us c)
  users_loop-Takes zero count j us c h = elim h [ ]
  users_loop-Takes (suc fuel) count j us c h = elim (dec_lt j count) [
    | yes more ↦ subst (Takes 0 c) (sym (users_loop_more o fuel count j us c more)) (
        Takes-weaken 20 0 c _ (omega arith) (
          bind-Takes (user_info o) _ 20 0 c (user_info-Takes c)
            λ _ d le. users_loop-Takes fuel count _ _ d (omega arith)))
    | no done ↦
        subst (Takes 0 c) (sym (users_loop_done o fuel count j us c (omega arith))) (omega arith)
  ]

  room_info-Takes : (c : Cursor) → Takes 8 c (room_info o c)
  unfolding room_info
  room_info-Takes c = bind-Takes (ntoh_assign o 4) _ 4 4 c (ntoh_assign-Takes 4 c) λ _ d le.
      bind-Takes (ntoh_assign o 4) _ 4 0 d (ntoh_assign-Takes 4 d) λ count e _.
        bind-Takes (all_users o count) _ 0 0 e
          (users_loop-Takes (suc (length e.memory)) count 0 [] e (omega arith))
          λ _ f le. omega arith

  rooms_loop-Takes :
      (fuel count i : ℕ) (rs : List RoomInfo) (c : Cursor)
      → length c.memory < fuel
      → Takes 0 c (rooms_loop o fuel count i rs c)
  rooms_loop-Takes zero count i rs c h = elim h [ ]
  rooms_loop-Takes (suc fuel) count i rs c h = elim (dec_lt i count) [
    | yes more ↦ subst (Takes 0 c) (sym (rooms_loop_more o fuel count i rs c more)) (
        Takes-weaken 8 0 c _ (omega arith) (
          bind-Takes (room_info o) _ 8 0 c (room_info-Takes c)
            λ _ d le. rooms_loop-Takes fuel count _ _ d (omega arith)))
    | no done ↦
        subst (Takes 0 c) (sym (rooms_loop_done o fuel count i rs c (omega arith))) (omega arith)
  ]

  tcp_parameter-Takes : (c : Cursor) → Takes 8 c (tcp_parameter o c)
  unfolding tcp_parameter
  tcp_parameter-Takes c = bind-Takes (ntoh_assign o 2) _ 2 6 c (ntoh_assign-Takes 2 c) λ _ d le.
      bind-Takes (ntoh_assign o 2) _ 2 4 d (ntoh_assign-Takes 2 d) λ _ e _.
        bind-Takes (ntoh_assign o 2) _ 2 2 e (ntoh_assign-Takes 2 e) λ _ f _.
          bind-Takes (ntoh_assign o 2) _ 2 0 f (ntoh_assign-Takes 2 f) λ _ g le. omega arith

  not_stuck : {A : Type 0} (n : ℕ) (c : Cursor) {r : Parse A} → Takes n c r → r ≢ stuck
  not_stuck n c t e = subst (Takes n c) e t

  -- On any bytes the constructor ends: its loops never run out of their fuel.
  pub rooms_info_parameter-ne-stuck : (c : Cursor) → rooms_info_parameter o c ≢ stuck
  unfolding rooms_info_parameter
  rooms_info_parameter-ne-stuck c = not_stuck 12 c (
      bind-Takes (tcp_parameter o) _ 8 4 c (tcp_parameter-Takes c) λ _ d le.
        bind-Takes (ntoh_assign o 4) _ 4 0 d (ntoh_assign-Takes 4 d) λ count e _.
          bind-Takes (all_rooms o count) _ 0 0 e
            (rooms_loop-Takes (suc (length e.memory)) count 0 [] e (omega arith))
            λ _ f le. omega arith)

  bind-outside :
      {A B : Type 0} (m : Parser A) (f : A → Parser B) (n : ℕ) (c : Cursor)
      → Takes n c (m c)
      → ((a : A) (d : Cursor) → length d.memory + n ≤ length c.memory → f a d ≡ outside)
      → (m >>= f) c ≡ outside
  bind-outside {A} {B} m f n c h next = go (m c) h
    where
      go :
          (r : Parse A)
          → Takes n c r
          → ◌≡◌ {A = Parse B}
              (elim r [ parsed a d ↦ f a d | outside ↦ outside | stuck ↦ stuck ])
              outside
      go (parsed a d) t = next a d t
      go outside t = refl
      go stuck t = elim t [ ]

  -- The 8-bit counter never reaches a bound of 256 or more.
  users_loop_endless :
      (fuel count j : ℕ) (us : List UserInfo) (c : Cursor)
      → 256 ≤ count
      → j < 256
      → length c.memory < fuel
      → users_loop o fuel count j us c ≡ outside
  users_loop_endless zero count j us c big hj h = elim h [ ]
  users_loop_endless (suc fuel) count j us c big hj h =
      users_loop_more o fuel count j us c (omega arith)
      ∙ bind-outside (user_info o) _ 20 c (user_info-Takes c)
          λ _ d le. users_loop_endless fuel count _ _ d big (omega arith) (omega arith)

  bind-fails :
      {A B : Type 0} (m : Parser A) (f : A → Parser B) {c : Cursor}
      → m c ≡ outside
      → (m >>= f) c ≡ outside
  bind-fails m f e = rw (e, ◌>>=◌)

  -- A room that claims 256 users or more is read past the end of the storage, whatever follows.
  pub room_info_endless :
      (room_id count : ℕ) (rest : List ℕ) (l : ℕ)
      → IsU32 room_id
      → IsU32 count
      → 256 ≤ count
      → room_info o (at (network_bytes 4 room_id ++ (network_bytes 4 count ++ rest)) l) ≡ outside
  unfolding room_info
  room_info_endless room_id count rest l hr hc big = reads_4 o _ room_id _ l hr (
      reads_4 o _ count rest _ hc (
        bind-fails (all_users o count) _
          (users_loop_endless (suc (length rest)) count 0 [] _ big (omega arith) (omega arith))))
