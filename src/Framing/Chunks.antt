-- ===== src/Framing/Chunks.antt =====
-- Successive read events of one connection: how the network cuts the stream does not matter.
use mathlib.Core.Path.{subst, ap₂}
use native.Mathlib.Decide.{dec_lt}
use real_time_monitor_agent.Base.{
  ℕ, ◌+◌, ◌≤◌, ◌<◌, ◌≡◌, refl, ap, sym, ◌∙◌, List, [], ◌∷◌, ◌++◌, Option, none, some, arith, length,
  take, drop, All, length-append, append_assoc, append-nil, take-append_eq, take-append_le,
  drop-append_eq, drop-append_le, take-append-drop,
}
use mathlib.Core.List.{map-append}
use real_time_monitor_agent.Base.Words.{IsByte}
use real_time_monitor_agent.Wire.Order.{NetOrder}
use real_time_monitor_agent.Framing.{Buffer, Call, Drained, packet, on_bytes, max_storage_size}
use real_time_monitor_agent.Framing.Stream.{header, max_packet_len, IsPacket, IsPartial, stream}
use real_time_monitor_agent.Framing.Buffers.{IsBuffer, pending}
use real_time_monitor_agent.Framing.Packets.{Delivers, header-append, on_bytes-Delivers}
use mathlib.Core.Option

-- A front of a packet is a partial packet.
IsPartial-front :
    (q z : List ℕ)
    → All IsByte (q ++ z)
    → header (q ++ z) < max_packet_len
    → length q < header (q ++ z) + 2
    → IsPartial q
IsPartial-front [] z h small short = record { bytes = tt; short = omega arith; small = omega arith }
IsPartial-front (a ∷ []) [] h small short = record { bytes = h; short = short; small = small }
IsPartial-front (a ∷ []) (c ∷ z) h small short = record {
  bytes = (h.0, tt);
  short = omega arith;
  small = omega arith;
}
IsPartial-front (a ∷ c ∷ q) z h small short = record {
  bytes = (h.0, (h.1.0, All_front q z h.1.1));
  short = short;
  small = small;
}
  where
    All_front : (xs ys : List ℕ) → All IsByte (xs ++ ys) → All IsByte xs
    All_front [] ys k = tt
    All_front (x ∷ xs) ys k = (k.0, All_front xs ys k.1)

-- If `xs ++ ys ≡ p ++ s` then the shorter of `xs` and `p` begins the other.
cut_inside :
    (xs ys p s : List ℕ) → xs ++ ys ≡ p ++ s → length xs ≤ length p → xs ++ drop (length xs) p ≡ p
cut_inside xs ys p s e h =
    ap (λ t. t ++ drop (length xs) p)
      (sym (take-append_eq (length xs) xs ys refl)
        ∙ ap (take (length xs)) e
        ∙ take-append_le (length xs) p s h)
    ∙ take-append-drop (length xs) p

cut_after :
    (xs ys p s : List ℕ)
    → xs ++ ys ≡ p ++ s
    → length p ≤ length xs
    → (xs ≡ p ++ drop (length p) xs) × (drop (length p) xs ++ ys ≡ s)
cut_after xs ys p s e h = (
  sym (cut_inside p s xs ys (sym e) h),
  sym (drop-append_le (length p) xs ys h)
      ∙ ap (drop (length p)) e
      ∙ drop-append_eq (length p) p s refl,
)

-- A stream that is cut anywhere: whole packets, a partial one, and the stream from there.
record Cut (xs ys : List ℕ) (ps : List (List ℕ)) (r : List ℕ) : Type 0 where
  before : List (List ℕ)
  front : List ℕ
  after : List (List ℕ)
  packets : ps ≡ before ++ after
  left : xs ≡ stream before front
  right : front ++ ys ≡ stream after r
  partial : IsPartial front
  valid_before : All IsPacket before
  valid_after : All IsPacket after

cut :
    (ps : List (List ℕ)) (xs ys r : List ℕ)
    → xs ++ ys ≡ stream ps r
    → All IsPacket ps
    → IsPartial r
    → Cut xs ys ps r
cut [] xs ys r e hs part = record {
  before = [];
  front = xs;
  after = [];
  packets = refl;
  left = refl;
  right = e;
  partial =
      let part' = subst IsPartial (sym e) part in
      IsPartial-front xs ys part'.bytes part'.small
        (omega (arith, part'.short, length-append xs ys));
  valid_before = tt;
  valid_after = tt;
}
cut (p ∷ ps) xs ys r e (h, hs) part = elim (dec_lt (length xs) (length p)) [
  | yes inside ↦
      let whole = cut_inside xs ys p (stream ps r) e (omega arith) in
      let h' = subst IsPacket (sym whole) h in
      record {
        before = [];
        front = xs;
        after = p ∷ ps;
        packets = refl;
        left = refl;
        right = e;
        partial =
            IsPartial-front xs _ h'.bytes h'.small
              (omega (arith, h'.whole, ap (λ (x : List ℕ). length x) whole));
        valid_before = tt;
        valid_after = (h, hs);
      }
  | no beyond ↦
      let (start, next) = cut_after xs ys p (stream ps r) e (omega arith) in
      let c = cut ps (drop (length p) xs) ys r next hs part in
      record {
        before = p ∷ c.before;
        front = c.front;
        after = c.after;
        packets = ap (◌∷◌ p) c.packets;
        left = start ∙ ap (◌++◌ p) c.left;
        right = c.right;
        partial = c.partial;
        valid_before = (h, c.valid_before);
        valid_after = c.valid_after;
      }
]

abbrev pub flatten : List (List ℕ) → List ℕ
flatten [] = []
flatten (c ∷ cs) = c ++ flatten cs

abbrev pub after_calls : List Call → Drained → Drained
after_calls calls d = record d { calls = calls ++ d.calls }

-- A partial packet holds no whole one.
partial_stream :
    (ps : List (List ℕ)) (x r : List ℕ)
    → IsPartial x
    → x ≡ stream ps r
    → All IsPacket ps
    → (ps ≡ []) × (x ≡ r)
partial_stream [] x r part e hs = (refl, e)
partial_stream (p ∷ ps) x r part e (h, hs) =
    let part' = subst IsPartial e part in
    absurd (
      omega (
        arith,
        part'.short,
        h.whole,
        length-append p (stream ps r),
        header-append p (stream ps r) (omega (arith, h.whole)),
      ))

module _ (o : NetOrder) where
  -- The read events of one connection: the buffer at the end and the calls of TcpParamScene.
  pub on_chunks : Buffer → List (List ℕ) → Option Drained
  on_chunks b [] = some (record { buffer = b; calls = [] })
  on_chunks b (c ∷ cs) = elim (on_bytes o b c) [
    | none ↦ none
    | some d ↦ Option.map (after_calls d.calls) (on_chunks d.buffer cs)
  ]

  -- What `recv` promises of each chunk: bytes, at least one, and no more than there is room for.
  abbrev pub Arrive : Buffer → List (List ℕ) → Type 0
  Arrive b [] = Unit {0}
  Arrive b (c ∷ cs) =
      All IsByte c
      × (0 < length c)
      × (b.offset + length c ≤ max_storage_size)
      × ((d : Drained) → on_bytes o b c ≡ some d → Arrive d.buffer cs)

  on_chunks_step :
      (b : Buffer) (c : List ℕ) (cs : List (List ℕ)) (d f : Drained)
      → on_bytes o b c ≡ some d
      → on_chunks d.buffer cs ≡ some f
      → on_chunks b (c ∷ cs) ≡ some (after_calls d.calls f)
  unfolding on_chunks
  on_chunks_step b c cs d f p q = rw (p, on_chunks) (rw q)

  -- A stream of packets whose length fields are below 768, however the network cuts it into chunks of
  -- one byte or more that fit behind the offset, with `memcpy` copying overlapping bytes as `memmove`
  -- does: the read events pass exactly its packets to TcpParamScene, each once and in order, no loop of
  -- them runs for ever, and the unfinished packet behind them stays in the buffer. Larger packets are
  -- not covered: of those, bytes can be lost.
  pub on_chunks-Delivers :
      (cs : List (List ℕ)) (b : Buffer) (ps : List (List ℕ)) (r : List ℕ)
      → IsBuffer b
      → Arrive b cs
      → pending b ++ flatten cs ≡ stream ps r
      → IsPartial (pending b)
      → All IsPacket ps
      → IsPartial r
      → (d : Drained) × (on_chunks b cs ≡ some d) × Delivers ps r d
  unfolding on_chunks
  on_chunks-Delivers [] b ps r v arrive e wait hs part =
      let (none_left, same) =
        partial_stream ps (pending b) r wait (sym (append-nil (pending b)) ∙ e) hs in
      (
        record { buffer = b; calls = [] },
        refl,
        record { sees = sym none_left; keeps = same; valid = v },
      )
  on_chunks-Delivers (c ∷ cs) b ps r v (bytes, pos, fits, next) e wait hs part =
      let k =
        cut ps (pending b ++ c) (flatten cs) r (append_assoc (pending b) c (flatten cs) ∙ e) hs
          part in
      let (d, ran, ok) =
        on_bytes-Delivers o b c k.before k.front v bytes pos fits k.left k.valid_before k.partial in
      let (f, ran', ok') =
        on_chunks-Delivers cs d.buffer k.after r ok.valid (next d ran)
          (ap (λ t. t ++ flatten cs) ok.keeps ∙ k.right) (subst IsPartial (sym ok.keeps) k.partial)
          k.valid_after part in
      (
        record { buffer = f.buffer; calls = d.calls ++ f.calls },
        on_chunks_step b c cs d f ran ran',
        record {
          sees = map-append packet d.calls f.calls ∙ ap₂ ◌++◌ ok.sees ok'.sees ∙ sym k.packets;
          keeps = ok'.keeps;
          valid = ok'.valid;
        },
      )
