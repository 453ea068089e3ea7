-- ===== src/Framing/Buffers.antt =====
-- The buffer between two events and after a receive, and what the loop does to its bytes.
use real_time_monitor_agent.Base.{
  ℕ, ◌+◌, ◌-◌, ◌≤◌, ◌<◌, ◌≡◌, ap, ◌∙◌, List, ◌++◌, arith, length, take, drop, All, length-append,
  length-take, length-drop, take-append_eq, take-drop, All-append, All-take, All-drop, append_assoc,
}
use real_time_monitor_agent.Base.Words.{IsByte}
use real_time_monitor_agent.Framing.{Buffer, receive, copy_down, max_storage_size}

-- The storage is an array of 1024 bytes, and there is room for more behind the pending ones.
pub record IsBuffer (b : Buffer) : Type 0 where
  pub bytes : All IsByte b.storage
  pub size : length b.storage ≡ max_storage_size
  pub room : b.offset < max_storage_size

-- The same where the pending bytes may fill the array.
pub record IsFilled (b : Buffer) : Type 0 where
  pub bytes : All IsByte b.storage
  pub size : length b.storage ≡ max_storage_size
  pub fits : b.offset ≤ max_storage_size

-- What was received and is not yet a packet.
abbrev pub pending : Buffer → List ℕ
pending b = take b.offset b.storage

pub length-pending : (b : Buffer) → b.offset ≤ length b.storage → length (pending b) ≡ b.offset
length-pending b h = omega (arith, length-take b.offset b.storage)

module _ (b : Buffer) (chunk : List ℕ) (v : IsBuffer b)
    (fits : b.offset + length chunk ≤ max_storage_size) where
  receive_size : length (receive b chunk).storage ≡ max_storage_size
  unfolding receive
  receive_size = omega (
    arith,
    v.size,
    length-append (pending b) (chunk ++ drop (b.offset + length chunk) b.storage),
    length-append chunk (drop (b.offset + length chunk) b.storage),
    length-pending b,
    length-drop (b.offset + length chunk) b.storage,
  )

  pub receive-IsFilled : All IsByte chunk → IsFilled (receive b chunk)
  unfolding receive
  receive-IsFilled h = record {
    bytes =
        All-append IsByte (pending b) _ (All-take IsByte b.offset b.storage v.bytes) (
          All-append IsByte chunk _ h
            (All-drop IsByte (b.offset + length chunk) b.storage v.bytes));
    size = receive_size;
    fits = fits;
  }

  -- A receive puts its bytes behind the pending ones.
  pub pending-receive : pending (receive b chunk) ≡ pending b ++ chunk
  unfolding receive
  pending-receive =
      rw (← append_assoc (pending b) chunk (drop (b.offset + length chunk) b.storage)) (
        take-append_eq (b.offset + length chunk) (pending b ++ chunk) _
          (omega (arith, length-append (pending b) chunk, length-pending b, v.size)))

module _ (b : Buffer) (t : ℕ) (v : IsFilled b) (h : t ≤ b.offset) where
  -- The buffer for the next round.
  abbrev pub rest : Buffer
  rest = record { storage = copy_down t (b.offset - t) b.storage; offset = b.offset - t }

  moved_length : length (take (b.offset - t) (drop t b.storage)) ≡ b.offset - t
  moved_length = omega (
    arith,
    v.fits,
    v.size,
    length-take (b.offset - t) (drop t b.storage),
    length-drop t b.storage,
  )

  pub rest-IsFilled : IsFilled rest
  rest-IsFilled = record {
    bytes =
        All-append IsByte (take (b.offset - t) (drop t b.storage)) _
          (All-take IsByte (b.offset - t) _ (All-drop IsByte t b.storage v.bytes))
          (All-drop IsByte (b.offset - t) b.storage v.bytes);
    size = omega (
      arith,
      v.fits,
      v.size,
      moved_length,
      length-append (take (b.offset - t) (drop t b.storage)) (drop (b.offset - t) b.storage),
      length-drop (b.offset - t) b.storage,
    );
    fits = omega (arith, v.fits);
  }

  -- The move keeps the bytes behind the packet.
  pub pending-rest : pending rest ≡ drop t (pending b)
  pending-rest =
      take-append_eq (b.offset - t) (take (b.offset - t) (drop t b.storage)) _ moved_length
      ∙ take-drop (b.offset - t) t b.storage
      ∙ ap (λ n. drop t (take n b.storage)) (omega arith)
