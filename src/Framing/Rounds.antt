-- ===== src/Framing/Rounds.antt =====
-- One round of the loop of EventOnTcpRead, branch by branch.
use real_time_monitor_agent.Base.{ℕ, suc, ◌-◌, ◌≤◌, ◌<◌, ◌≡◌, [], ◌∷◌, some, arith}
use real_time_monitor_agent.Wire.Order.{NetOrder}
use real_time_monitor_agent.Framing.{Buffer, called, copy_down, drain, total_len, max_storage_size}
use mathlib.Core.Option

module _ (o : NetOrder) (fuel : ℕ) (b : Buffer) {t : ℕ} (e : total_len o b.storage ≡ t) where
  -- A packet that no buffer can hold: all that was received is dropped.
  pub drain_overlong :
      max_storage_size < t
      → drain o (suc fuel) b ≡ some (record { buffer = record b { offset = 0 }; calls = [] })
  unfolding drain
  drain_overlong h = ground arith

  -- The packet is not complete: the buffer waits for more.
  pub drain_incomplete :
      t ≤ max_storage_size
      → b.offset < t
      → drain o (suc fuel) b ≡ some (record { buffer = b; calls = [] })
  unfolding drain
  drain_incomplete h k = ground arith

  -- The packet ends the buffer.
  pub drain_last :
      t ≤ max_storage_size
      → b.offset ≡ t
      → drain o (suc fuel) b
        ≡ some (record {
          buffer = record b { offset = 0 };
          calls = record { memory = b.storage; len = t } ∷ [];
        })
  unfolding drain
  drain_last h k = ground arith

  -- More bytes follow the packet.
  pub drain_more :
      t ≤ max_storage_size
      → t < b.offset
      → drain o (suc fuel) b
        ≡ Option.map (called (record { memory = b.storage; len = t })) (
            drain o fuel
              (record { storage = copy_down t (b.offset - t) b.storage; offset = b.offset - t }))
  unfolding drain
  drain_more h k = ground arith
