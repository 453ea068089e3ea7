-- ===== src/Wire/RoundTrip.antt =====
-- What is written in network order is read back, and the requests as the proxy reads them.
use real_time_monitor_agent.Base.{
  ℕ, ◌^◌, ◌<◌, ◌≡◌, List, ◌++◌, arith, length-append, take-append_eq, drop-append_eq,
}
use real_time_monitor_agent.Base.Words.{sub16}
use real_time_monitor_agent.Wire.Order.{
  NetOrder, network_bytes, length-network_bytes, network_bytes-IsByte,
}
use real_time_monitor_agent.Wire.Serialize.{
  Size, unserialize-network_value, network_value-network_bytes,
}
use real_time_monitor_agent.Wire.Cursor.{parsed, ntoh_assign}

module _ (o : NetOrder) where
  -- A field in network order at the pointer is read, and the pointer moves behind it.
  pub ntoh_assign-network_bytes :
      {n : ℕ} (v : ℕ) (rest : List ℕ) (l : ℕ)
      → Size n
      → v < 256 ^ n
      → ntoh_assign o n (record { memory = network_bytes n v ++ rest; storage_len = l })
        ≡ parsed v (record { memory = rest; storage_len = sub16 l n })
  unfolding ntoh_assign
  ntoh_assign-network_bytes {n} v rest l s h = ground (
    arith,
    length-append (network_bytes n v) rest,
    length-network_bytes n v,
    take-append_eq n (network_bytes n v) rest (length-network_bytes n v),
    drop-append_eq n (network_bytes n v) rest (length-network_bytes n v),
    unserialize-network_value o (network_bytes n v) s (network_bytes-IsByte n v)
        (length-network_bytes n v),
    network_value-network_bytes v s h,
  )
