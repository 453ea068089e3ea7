-- ===== src/Framing/Packets.antt =====
-- The loop cuts exactly the packets of the stream from the buffer.
use mathlib.Core.Option
use real_time_monitor_agent.Base.{
  ℕ, suc, ◌+◌, ◌≤◌, ◌<◌, ◌≡◌, refl, ap, sym, ◌∙◌, List, [], ◌∷◌, ◌++◌, map, some, arith, length,
  take, drop, All, take-take_le, take-append_eq, drop-append_eq, length-append, length_zero, zero,
}
use mathlib.Core.Path.{ap₂, subst, subst₂}
use native.Mathlib.Decide.{dec_lt}
use real_time_monitor_agent.Base.Words.{IsByte}
use real_time_monitor_agent.Wire.Order.{NetOrder}
use real_time_monitor_agent.Framing.{
  max_storage_size, Buffer, Call, Drained, called, packet, drain, total_len, receive, on_bytes,
}
use real_time_monitor_agent.Framing.Stream.{header, IsPacket, IsPartial, stream}
use real_time_monitor_agent.Framing.Rounds.{drain_incomplete, drain_last, drain_more}
use real_time_monitor_agent.Framing.Buffers.{
  IsBuffer, IsFilled, pending, length-pending, rest, rest-IsFilled, pending-rest, receive-IsFilled,
  pending-receive,
}
use real_time_monitor_agent.Framing.Headers.{total_len_small}

-- The calls carry `ps`, and the buffer is left with `r`.
pub record Delivers (ps : List (List ℕ)) (r : List ℕ) (d : Drained) : Type 0 where
  pub sees : map packet d.calls ≡ ps
  pub keeps : pending d.buffer ≡ r
  pub valid : IsBuffer d.buffer

-- A front of a packet with its own length field reads the same in any longer list.
pub header-append : (p q : List ℕ) → 2 ≤ length p → header (p ++ q) ≡ header p
header-append [] q h = absurd (omega arith)
header-append (a ∷ []) q h = absurd (omega arith)
header-append (a ∷ c ∷ p) q h = refl

length-stream :
    (ps : List (List ℕ)) (r : List ℕ) → All IsPacket ps → length ps ≤ length (stream ps r)
length-stream [] r h = omega arith
length-stream (p ∷ ps) r (h, hs) =
    omega (arith, h.whole, length-append p (stream ps r), length-stream ps r hs)

stream_nil :
    (ps : List (List ℕ)) (r : List ℕ)
    → All IsPacket ps
    → length (stream ps r) ≡ 0
    → (ps ≡ []) × (r ≡ [])
stream_nil [] r h e = (refl, length_zero r e)
stream_nil (p ∷ ps) r (h, hs) e = absurd (omega (arith, h.whole, length-append p (stream ps r)))

module _ (o : NetOrder) where
  -- With a front of a packet, the loop stops at once and keeps it.
  partial_later :
      (b : Buffer)
      → IsFilled b
      → 0 < b.offset
      → IsPartial (pending b)
      → (b.offset < total_len o b.storage) × (total_len o b.storage ≤ 1024)
  partial_later b v pos part = elim (dec_lt b.offset 2) [
    | yes h ↦ omega (arith, small)
    | no h ↦ omega (arith, small.2 (omega arith), length-pending b, part.short, small)
  ]
    where
      small :
          (2 ≤ total_len o b.storage)
          × (total_len o b.storage ≤ 1024)
          × (2 ≤ b.offset → total_len o b.storage ≡ header (pending b) + 2)
      small = total_len_small o b.offset b.storage v.bytes (omega (arith, v.size)) pos part.small

  drain_partial :
      (fuel : ℕ) (b : Buffer) (r : List ℕ)
      → IsFilled b
      → 0 < b.offset
      → pending b ≡ r
      → IsPartial r
      → (d : Drained) × (drain o (suc fuel) b ≡ some d) × Delivers [] r d
  drain_partial fuel b r v pos e part = (
    record { buffer = b; calls = [] },
    drain_incomplete o fuel b refl later.1 later.0,
    record {
      sees = refl;
      keeps = e;
      valid = record { bytes = v.bytes; size = v.size; room = omega (arith, later) };
    },
  )
    where
      later : (b.offset < total_len o b.storage) × (total_len o b.storage ≤ 1024)
      later = partial_later b v pos (subst IsPartial (sym e) part)

  -- The first packet of the stream: what the loop reads of it, and where it ends.
  module _ (b : Buffer) (p q : List ℕ) (v : IsFilled b) (e : pending b ≡ p ++ q)
      (h : IsPacket p) where
    front_length : length p + length q ≡ b.offset
    front_length = omega (
      arith,
      ap (λ (x : List ℕ). length x) e,
      length-append p q,
      length-pending b,
      v.size,
      v.fits,
    )

    front_total : total_len o b.storage ≡ length p
    front_total = omega (arith, small.2, same, h.whole, front_length)
      where
        same : header (pending b) ≡ header p
        same = ap header e ∙ header-append p q (omega (arith, h.whole))

        small :
            (2 ≤ total_len o b.storage)
            × (total_len o b.storage ≤ 1024)
            × (2 ≤ b.offset → total_len o b.storage ≡ header (pending b) + 2)
        small =
            total_len_small o b.offset b.storage v.bytes (omega (arith, v.size))
              (omega (arith, front_length, h.whole)) (omega (arith, same, h.small))

    front_taken : take (length p) b.storage ≡ p
    front_taken =
        sym (take-take_le (length p) b.offset b.storage (omega (arith, front_length)))
        ∙ ap (take (length p)) e
        ∙ take-append_eq (length p) p q refl

    front_rest : pending (rest b (length p) v (omega (arith, front_length))) ≡ q
    front_rest =
        pending-rest b (length p) v (omega (arith, front_length))
        ∙ ap (drop (length p)) e
        ∙ drop-append_eq (length p) p q refl

  -- A packet that ends the buffer is delivered, and the buffer is empty.
  drain_packet_last :
      (fuel : ℕ) (b : Buffer) (p : List ℕ)
      → IsFilled b
      → pending b ≡ p ++ []
      → IsPacket p
      → (d : Drained) × (drain o (suc fuel) b ≡ some d) × Delivers (p ∷ []) [] d
  drain_packet_last fuel b p v e h = (
    record {
      buffer = record b { offset = 0 };
      calls = record { memory = b.storage; len = length p } ∷ [];
    },
    drain_last o fuel b (front_total b p [] v e h)
        (omega (arith, front_length b p [] v e h, v.fits))
        (omega (arith, front_length b p [] v e h)),
    record {
      sees = ap (λ x. x ∷ []) (front_taken b p [] v e h);
      keeps = refl;
      valid = record { bytes = v.bytes; size = v.size; room = omega arith };
    },
  )

  -- A packet with bytes behind it is delivered, and the loop goes on with those.
  drain_packet_more :
      (fuel : ℕ) (b : Buffer) (p q r : List ℕ) (ps : List (List ℕ)) (v : IsFilled b)
      → pending b ≡ p ++ q
      → IsPacket p
      → (more : length p < b.offset)
      → (d : Drained) × (drain o fuel (rest b (length p) v (omega (arith, more))) ≡ some d)
        × Delivers ps r d
      → (d : Drained) × (drain o (suc fuel) b ≡ some d) × Delivers (p ∷ ps) r d
  drain_packet_more fuel b p q r ps v e h more (d, ran, ok) =
      let call : Call = record { memory = b.storage; len = length p } in
      (
        called call d,
        drain_more o fuel b (front_total b p q v e h) (omega (arith, v.fits)) more
            ∙ ap (Option.map (called call)) ran,
        record {
          sees = ap₂ ◌∷◌ (front_taken b p q v e h) ok.sees;
          keeps = ok.keeps;
          valid = ok.valid;
        },
      )

  -- With enough fuel the loop delivers all packets of the pending bytes, in order.
  drain-stream :
      (ps : List (List ℕ)) (fuel : ℕ) (b : Buffer) (r : List ℕ)
      → length ps ≤ fuel
      → IsFilled b
      → 0 < b.offset
      → pending b ≡ stream ps r
      → All IsPacket ps
      → IsPartial r
      → (d : Drained) × (drain o (suc fuel) b ≡ some d) × Delivers ps r d
  drain-stream [] fuel b r hf v pos e hs part = drain_partial fuel b r v pos e part
  drain-stream (p ∷ ps) zero b r hf v pos e hs part = absurd (omega arith)
  drain-stream (p ∷ ps) (suc fuel) b r hf v pos e (h, hs) part = elim (dec_lt (length p) b.offset) [
    | yes more ↦ drain_packet_more (suc fuel) b p (stream ps r) r ps v e h more (
        drain-stream ps fuel _ r (omega arith) (rest-IsFilled b (length p) v (omega arith))
          (omega arith) (front_rest b p (stream ps r) v e h) hs part)
    | no last ↦
        let (none_left, no_rest) =
          stream_nil ps r hs (omega (arith, front_length b p (stream ps r) v e h)) in
        subst₂
          (λ qs x. (d : Drained) × (drain o (suc (suc fuel)) b ≡ some d) × Delivers (p ∷ qs) x d)
          (sym none_left) (sym no_rest)
          (drain_packet_last (suc fuel) b p v
            (subst₂ (λ qs x. pending b ≡ p ++ stream qs x) none_left no_rest e) h)
  ]

  -- The bytes that a socket hands over complete some packets and begin another: exactly those
  -- packets are passed to TcpParamScene, in order, and the front of the next one waits.
  pub on_bytes-Delivers :
      (b : Buffer) (chunk : List ℕ) (ps : List (List ℕ)) (r : List ℕ)
      → IsBuffer b
      → All IsByte chunk
      → 0 < length chunk
      → b.offset + length chunk ≤ max_storage_size
      → pending b ++ chunk ≡ stream ps r
      → All IsPacket ps
      → IsPartial r
      → (d : Drained) × (on_bytes o b chunk ≡ some d) × Delivers ps r d
  unfolding on_bytes
  on_bytes-Delivers b chunk ps r v hc pos fits e hs part =
      drain-stream ps (receive b chunk).offset (receive b chunk) r
        (unfold receive in
          omega (
            arith,
            length-stream ps r hs,
            ap (λ (x : List ℕ). length x) e,
            length-append (pending b) chunk,
            length-pending b,
            v.size,
            v.room,
          ))
        (receive-IsFilled b chunk v fits hc) (unfold receive in omega arith)
        (pending-receive b chunk v fits ∙ e) hs part
