-- ===== src/Framing/Headers.antt =====
-- `total_len`, which the loop reads from the storage, against the length field of the stream.
use real_time_monitor_agent.Base.{
  ℕ, zero, suc, ◌+◌, ◌*◌, ◌%◌, ◌^◌, ◌≤◌, ◌<◌, ◌≡◌, refl, List, [], ◌∷◌, arith, length, take, All,
}
use real_time_monitor_agent.Base.Words.{IsByte, IsU16}
use real_time_monitor_agent.Wire.Order.{NetOrder}
use real_time_monitor_agent.Framing.{total_len}
use real_time_monitor_agent.Framing.Stream.{header, max_packet_len}

pub header-IsU16 : (s : List ℕ) → All IsByte s → IsU16 (header s)
header-IsU16 [] h = omega arith
header-IsU16 (a ∷ []) h = omega arith
header-IsU16 (a ∷ c ∷ s) h = omega arith

pub total_len_two :
    (o : NetOrder) (a c : ℕ) (s : List ℕ)
    → IsByte a
    → IsByte c
    → total_len o (a ∷ c ∷ s) ≡ (a * 256 + c + 2) % 2 ^ 16
unfolding total_len
total_len_two o a c s ha hc = rw (o.ntohs_loads (a ∷ c ∷ []) (ha, (hc, tt)) refl) (omega arith)

-- On a storage of two bytes or more.
pub total_len-header :
    (o : NetOrder) (s : List ℕ)
    → All IsByte s
    → 2 ≤ length s
    → total_len o s ≡ (header s + 2) % 2 ^ 16
total_len-header o [] h k = absurd (omega arith)
total_len-header o (a ∷ []) h k = absurd (omega arith)
total_len-header o (a ∷ c ∷ s) h k = rw (total_len_two o a c s h.0 h.1.0) (omega arith)

-- The first `n` bytes have the field when they have both its bytes.
pub header-take : (n : ℕ) (s : List ℕ) → 2 ≤ n → header (take n s) ≡ header s
header-take zero s h = absurd (omega arith)
header-take (suc zero) s h = absurd (omega arith)
header-take (suc (suc n)) [] h = refl
header-take (suc (suc n)) (a ∷ []) h = refl
header-take (suc (suc n)) (a ∷ c ∷ s) h = refl

-- With one byte or more of a small length field the loop reads a length that fits the storage.
pub total_len_small :
    (o : NetOrder) (n : ℕ) (s : List ℕ)
    → All IsByte s
    → 2 ≤ length s
    → 1 ≤ n
    → header (take n s) < max_packet_len
    → (2 ≤ total_len o s) × (total_len o s ≤ 1024) × (2 ≤ n → total_len o s ≡ header (take n s) + 2)
total_len_small o zero s h k pos small = absurd (omega arith)
total_len_small o (suc n) [] h k pos small = absurd (omega arith)
total_len_small o (suc n) (a ∷ []) h k pos small = absurd (omega arith)
total_len_small o (suc zero) (a ∷ c ∷ s) h k pos small =
    rw (total_len-header o (a ∷ c ∷ s) h k) (omega arith)
total_len_small o (suc (suc n)) (a ∷ c ∷ s) h k pos small =
    rw (total_len-header o (a ∷ c ∷ s) h k) (omega arith)
