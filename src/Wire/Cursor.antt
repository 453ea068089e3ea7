-- ===== src/Wire/Cursor.antt =====
-- `pj_ntoh_assign` of Com.h: integers read one after the other from a storage pointer.
use real_time_monitor_agent.Base.{ℕ, List, ltb, if◌then◌else◌, length, take, drop, ◌≡◌}
use real_time_monitor_agent.Base.Words.{sub16}
use real_time_monitor_agent.Wire.Order.{NetOrder, load}
use real_time_monitor_agent.Wire.Serialize.{unserialize}

-- `storage` and `storage_len`. The memory runs from the pointer to the end of the array that it
-- points into, which may lie behind the end of the packet.
pub record Cursor : Type 0 where
  pub memory : List ℕ
  pub storage_len : ℕ

-- `outside`: a load behind the end of the array. `stuck`: the fuel of a loop ran out.
pub data Parse (A : Type 0) : Type 0 where
  parsed : A → Cursor → Parse A
  outside : Parse A
  stuck : Parse A

abbrev pub Parser : Type 0 → Type 0
Parser A = Cursor → Parse A

abbrev pub pure : {A : Type 0} → A → Parser A
pure a c = parsed a c

infixl 5 ◌>>=◌
abbrev pub ◌>>=◌ : {A B : Type 0} → Parser A → (A → Parser B) → Parser B
◌>>=◌ m f c = elim (m c) [ parsed a d ↦ f a d | outside ↦ outside | stuck ↦ stuck ]

-- `storage_len` is 16 bits wide and wraps round below 0; nothing tests it.
unfoldable pub ntoh_assign : NetOrder → ℕ → Parser ℕ
ntoh_assign o size c =
    if ltb (length c.memory) size
    then outside
    else parsed (unserialize o size (load (take size c.memory)))
        (record { memory = drop size c.memory; storage_len = sub16 c.storage_len size })

-- A parser that begins with a read, from what the read gives and what follows.
pub bind-parsed :
    {A B : Type 0} (m : Parser A) (f : A → Parser B) {c d : Cursor} {a : A} {r : Parse B}
    → m c ≡ parsed a d
    → f a d ≡ r
    → (m >>= f) c ≡ r
bind-parsed m f e k = rw (e, ◌>>=◌) k
