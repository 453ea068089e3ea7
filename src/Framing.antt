-- ===== src/Framing.antt =====
-- The reassembly of TCP packets: the read buffer of an AvsProxy and the loop of
-- ScreenMgr::EventOnTcpRead that cuts packets from it (Monitor/Monitor/ScreenMgr.cpp).
pub mod Stream
pub mod Rounds
pub mod Buffers
pub mod Headers
pub mod Packets
pub mod Chunks
pub mod Faults
pub mod Requests
mod Examples
use real_time_monitor_agent.Base.{
  ℕ, zero, suc, ◌+◌, ◌-◌, List, [], ◌∷◌, ◌++◌, Option, none, some, true, false, ltb, length, take,
  drop,
}
use real_time_monitor_agent.Base.Words.{add16}
use real_time_monitor_agent.Wire.Order.{NetOrder, load}
use mathlib.Core.Option

abbrev pub max_storage_size : ℕ
max_storage_size = 1024

-- `tcp_storage_` and `tcp_storage_offset_` of a proxy. The bytes from the offset on are old data.
pub record Buffer : Type 0 where
  pub storage : List ℕ
  pub offset : ℕ

-- A call of TcpParamScene: the storage that its pointer shows at that moment, and `total_len`.
pub record Call : Type 0 where
  pub memory : List ℕ
  pub len : ℕ

abbrev pub packet : Call → List ℕ
packet c = take c.len c.memory

-- How the loop ends: the buffer that it leaves, and its calls in order.
pub record Drained : Type 0 where
  pub buffer : Buffer
  pub calls : List Call

-- `pj_sock_recv` at the offset: the received bytes overwrite those that lie there.
pub receive : Buffer → List ℕ → Buffer
receive b chunk = record {
  storage = take b.offset b.storage ++ (chunk ++ drop (b.offset + length chunk) b.storage);
  offset = b.offset + length chunk;
}

-- `memcpy(tcp_storage_, tcp_storage_ + total_len, tcp_storage_offset_)`. Where the two regions overlap
-- (more bytes left than `total_len`) the standard leaves it undefined; the model takes what a copy from
-- the low addresses up leaves, which is what `memmove` leaves.
abbrev pub copy_down : ℕ → ℕ → List ℕ → List ℕ
copy_down total offset s = take offset (drop total s) ++ drop offset s

abbrev pub called : Call → Drained → Drained
called c d = record d { calls = c ∷ d.calls }

-- `total_len`: a 16-bit sum, so it wraps round.
pub total_len : NetOrder → List ℕ → ℕ
total_len o s = add16 (o.ntohs (load (take 2 s))) 2

module _ (o : NetOrder) where
  -- The `do … while (1)` of EventOnTcpRead. `none`: the fuel ran out.
  pub drain : ℕ → Buffer → Option Drained
  drain zero b = none
  drain (suc fuel) b =
      let total = total_len o b.storage in
      let left = b.offset - total in
      let call : Call = record { memory = b.storage; len = total } in
      elim (ltb max_storage_size total) [
        | true ↦ some (record { buffer = record b { offset = 0 }; calls = [] })
        | false ↦ elim (ltb b.offset total) [
          | true ↦ some (record { buffer = b; calls = [] })
          | false ↦ elim (ltb 0 left) [
            | true ↦
                Option.map (called call)
                  (drain fuel (record { storage = copy_down total left b.storage; offset = left }))
            | false ↦ some (record { buffer = record b { offset = left }; calls = call ∷ [] })
          ]
        ]
      ]

  -- The branch of EventOnTcpRead for received bytes. Each round of a loop that ends takes a byte
  -- at least, so the offset bounds the rounds.
  pub on_bytes : Buffer → List ℕ → Option Drained
  on_bytes b chunk = let b' = receive b chunk in drain (suc b'.offset) b'
