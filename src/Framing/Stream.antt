-- ===== src/Framing/Stream.antt =====
-- What the byte stream of a proxy means, without buffers: packets behind their length fields.
use real_time_monitor_agent.Base.{ℕ, ◌+◌, ◌*◌, ◌<◌, ◌≡◌, List, [], ◌∷◌, ◌++◌, length, All}
use real_time_monitor_agent.Base.Words.{IsByte}

-- The length field at the front, as far as its bytes are there.
abbrev pub header : List ℕ → ℕ
header [] = 0
header (a ∷ []) = a * 256
header (a ∷ b ∷ bs) = a * 256 + b

-- Packets whose length field is below 768, so that its first byte is at most 2.
abbrev pub max_packet_len : ℕ
max_packet_len = 768

pub record IsPacket (p : List ℕ) : Type 0 where
  pub bytes : All IsByte p
  pub whole : length p ≡ header p + 2
  pub small : header p < max_packet_len

-- A proper front of a packet.
pub record IsPartial (r : List ℕ) : Type 0 where
  pub bytes : All IsByte r
  pub short : length r < header r + 2
  pub small : header r < max_packet_len

-- The packets, one after the other, and the front of the next.
abbrev pub stream : List (List ℕ) → List ℕ → List ℕ
stream [] r = r
stream (p ∷ ps) r = p ++ stream ps r
