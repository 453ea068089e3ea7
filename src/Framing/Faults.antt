-- ===== src/Framing/Faults.antt =====
-- The loop on any bytes, those of a broken or hostile proxy too: its bounds, when it never ends,
-- and a length field that arrives in two parts.
use mathlib.Core.Option
use native.Mathlib.Nat.{sub-zero}
use mathlib.Core.Path.{subst}
use native.Mathlib.Decide.{dec_lt}
use real_time_monitor_agent.Base.{
  ℕ, zero, suc, ◌+◌, ◌-◌, ◌≤◌, ◌<◌, ◌≡◌, refl, List, [], ◌∷◌, Option, none, some, arith, length,
  All, ap, sym, ◌∙◌, ◌↔◌, take-append-drop, map-inversion, some_eq,
}
use real_time_monitor_agent.Base.Words.{IsByte}
use real_time_monitor_agent.Wire.Order.{NetOrder}
use real_time_monitor_agent.Framing.{
  Buffer, Call, Drained, called, copy_down, drain, total_len, receive, on_bytes, max_storage_size,
}
use real_time_monitor_agent.Framing.Rounds.{
  drain_overlong, drain_incomplete, drain_last, drain_more,
}
use real_time_monitor_agent.Framing.Headers.{total_len_two}
use real_time_monitor_agent.Framing.Buffers.{IsBuffer, IsFilled, rest-IsFilled, receive-IsFilled}

-- A call whose packet lies inside the storage array.
abbrev pub InStorage : Call → Type 0
InStorage c = (length c.memory ≡ max_storage_size) × (c.len ≤ max_storage_size)

module _ (o : NetOrder) where
  -- The four ways a round goes.
  data Round (b : Buffer) : Type 0 where
    overlong : max_storage_size < total_len o b.storage → Round b
    incomplete :
        total_len o b.storage ≤ max_storage_size → b.offset < total_len o b.storage → Round b
    last : total_len o b.storage ≤ max_storage_size → b.offset ≡ total_len o b.storage → Round b
    more : total_len o b.storage ≤ max_storage_size → total_len o b.storage < b.offset → Round b

  round : (b : Buffer) → Round b
  round b = elim (dec_lt max_storage_size (total_len o b.storage)) [
    | yes h ↦ overlong h
    | no h ↦ elim (dec_lt b.offset (total_len o b.storage)) [
      | yes k ↦ incomplete (omega arith) k
      | no k ↦ elim (dec_lt (total_len o b.storage) b.offset) [
        | yes m ↦ more (omega arith) m
        | no m ↦ last (omega arith) (omega arith)
      ]
    ]
  ]

  abbrev next : Buffer → Buffer
  next b = record {
    storage = copy_down (total_len o b.storage) (b.offset - total_len o b.storage) b.storage;
    offset = b.offset - total_len o b.storage;
  }

  -- What a round that ends leaves behind is safe.
  abbrev pub Safe : Drained → Type 0
  Safe d = IsBuffer d.buffer × All InStorage d.calls

  emptied : (b : Buffer) → IsFilled b → IsBuffer (record b { offset = 0 })
  emptied b v = record { bytes = v.bytes; size = v.size; room = omega arith }

  drain-Safe : (fuel : ℕ) (b : Buffer) (d : Drained) → IsFilled b → drain o fuel b ≡ some d → Safe d
  drain-Safe zero b d v e = unfold drain in cc
  drain-Safe (suc fuel) b d v e = elim (round b) [
    | overlong h ↦ subst Safe (some_eq (sym (drain_overlong o fuel b refl h) ∙ e)) (emptied b v, tt)
    | incomplete h k ↦
        subst Safe (some_eq (sym (drain_incomplete o fuel b refl h k) ∙ e))
          (record { bytes = v.bytes; size = v.size; room = omega arith }, tt)
    | last h k ↦
        subst Safe (some_eq (sym (drain_last o fuel b refl h k) ∙ e))
          (emptied b v, ((v.size, h), tt))
    | more h k ↦
        let (d', ran, same) =
          map-inversion (called (record { memory = b.storage; len = total_len o b.storage })) _
            (sym (drain_more o fuel b refl h k) ∙ e) in
        let (buffer, calls) =
          drain-Safe fuel (next b) d' (rest-IsFilled b (total_len o b.storage) v (omega arith))
            ran in
        subst Safe same (buffer, ((v.size, h), calls))
  ]

  -- Whatever bytes arrive: when the handler ends, the storage is as long as before, there is room
  -- for one byte more at least, so that the next receive cannot come back with 0 bytes for want
  -- of room, and every call of TcpParamScene has its packet inside the storage.
  pub on_bytes-Safe :
      (b : Buffer) (chunk : List ℕ) (d : Drained)
      → IsBuffer b
      → All IsByte chunk
      → b.offset + length chunk ≤ max_storage_size
      → on_bytes o b chunk ≡ some d
      → IsBuffer d.buffer × All InStorage d.calls
  unfolding on_bytes
  on_bytes-Safe b chunk d v hc fits e =
      drain-Safe _ (receive b chunk) d (receive-IsFilled b chunk v fits hc) e

  -- A buffer whose rounds come to a length field 0xfffe, where `total_len` wraps round to 0.
  pub data Stalls : Buffer → Type 0 where
    now : (b : Buffer) → 0 < b.offset → total_len o b.storage ≡ 0 → Stalls b
    later :
        (b : Buffer)
        → total_len o b.storage ≤ max_storage_size
        → total_len o b.storage < b.offset
        → Stalls (next b)
        → Stalls b

  -- A packet of length 0 changes nothing, and the loop goes round.
  stalled_copy : (b : Buffer) → total_len o b.storage ≡ 0 → next b ≡ b
  stalled_copy b e =
      rw (e, sub-zero)
        (ap (λ s. record { storage = s; offset = b.offset }) (take-append-drop b.offset b.storage))

  drain-stalled : (b : Buffer) → Stalls b → (fuel : ℕ) → drain o fuel b ≡ none
  drain-stalled b s zero = unfold drain in refl
  drain-stalled b (now _ pos e) (suc fuel) =
      drain_more o fuel b refl (omega (arith, e)) (omega (arith, e))
      ∙ ap (Option.map _)
          (ap (drain o fuel) (stalled_copy b e) ∙ drain-stalled b (now b pos e) fuel)
  drain-stalled b (later _ h k s) (suc fuel) =
      drain_more o fuel b refl h k ∙ ap (Option.map _) (drain-stalled (next b) s fuel)

  map-none {ℓ κ} :
      {A : Type ℓ} {B : Type κ} (f : A → B) (m : Option A) → Option.map f m ≡ none → m ≡ none
  map-none f none e = refl
  map-none f (some a) e = cc

  -- Where it does not stall, each round takes a byte at least.
  drain-none : (fuel : ℕ) (b : Buffer) → b.offset < fuel → drain o fuel b ≡ none → Stalls b
  drain-none zero b h e = elim h [ ]
  drain-none (suc fuel) b h e = elim (round b) [
    | overlong k ↦ cc (drain_overlong o fuel b refl k)
    | incomplete k l ↦ cc (drain_incomplete o fuel b refl k l)
    | last k l ↦ cc (drain_last o fuel b refl k l)
    | more k l ↦ elim (dec_lt 0 (total_len o b.storage)) [
      | yes pos ↦ later b k l (
          drain-none fuel (next b) (omega arith)
            (map-none _ _ (sym (drain_more o fuel b refl k l) ∙ e)))
      | no zero_len ↦ now b (omega arith) (omega arith)
    ]
  ]

  -- The fuel of the model is enough: the handler's loop runs out of it exactly if its rounds come
  -- to a length field whose 16-bit total is 0, and exactly if it ends with no fuel at all.
  pub on_bytes-Stalls_iff :
      (b : Buffer) (chunk : List ℕ)
      → ((on_bytes o b chunk ≡ none) ↔ Stalls (receive b chunk))
        × ((on_bytes o b chunk ≡ none) ↔ ((fuel : ℕ) → drain o fuel (receive b chunk) ≡ none))
  unfolding on_bytes
  on_bytes-Stalls_iff b chunk = (
    (drain-none _ (receive b chunk) (omega arith), λ s. drain-stalled (receive b chunk) s _),
    (
      λ e. drain-stalled (receive b chunk) (drain-none _ (receive b chunk) (omega arith) e),
      λ all. all _,
    ),
  )

  -- A packet whose length field is 0xfffe makes the loop run for ever, whatever follows it.
  pub drain_fffe :
      (s tail : List ℕ) (fuel : ℕ)
      → drain o fuel (receive (record { storage = s; offset = 0 }) (0xff ∷ 0xfe ∷ tail)) ≡ none
  unfolding receive
  drain_fffe s tail fuel =
      drain-stalled _
        (now _ (omega arith) (total_len_two o 0xff 0xfe _ (omega arith) (omega arith))) fuel

  -- The first byte of the length field 0x03xx of a packet that the storage could hold, received
  -- alone, is thrown away if the byte behind it in the storage happens to be 0xff: the loop reads
  -- both as a length. The rest of the packet is then read as if it were the next one.
  pub on_bytes_torn_header :
      (x : ℕ) (s : List ℕ)
      → on_bytes o (record { storage = x ∷ 0xff ∷ s; offset = 0 }) (3 ∷ [])
        ≡ some (record { buffer = record { storage = 3 ∷ 0xff ∷ s; offset = 0 }; calls = [] })
  unfolding on_bytes receive
  on_bytes_torn_header x s =
      drain_overlong o 1 (record { storage = 3 ∷ 0xff ∷ s; offset = 1 })
        (total_len_two o 3 0xff s (omega arith) (omega arith)) (omega arith)
