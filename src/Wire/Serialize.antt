-- ===== src/Wire/Serialize.antt =====
-- The templates `serialize` and `unserialize` of Com.h. A signed integer is its bit pattern, and
-- the first argument is `sizeof(Type)`.
use real_time_monitor_agent.Base.{
  ℕ, ◌^◌, ◌<◌, ◌≡◌, refl, List, [], ◌∷◌, ap, ◌==◌, if◌then◌else◌, length, All, arith,
}
use real_time_monitor_agent.Base.Words.{IsByte}
use real_time_monitor_agent.Wire.Order.{
  NetOrder, load, store, network_bytes, network_value, network_value-bytes_1, network_value-bytes_2,
  network_value-bytes_4, network_value-bytes_8,
}

module _ (o : NetOrder) where
  -- For another size an assertion fails; behind it the result is 0.
  pub serialize : ℕ → ℕ → ℕ
  serialize size t =
      if size == 1
      then t
      else if size == 2
      then o.htons t
      else if size == 4
      then o.htonl t
      else if size == 8
      then o.htonll t
      else 0

  pub unserialize : ℕ → ℕ → ℕ
  unserialize size t =
      if size == 1
      then t
      else if size == 2
      then o.ntohs t
      else if size == 4
      then o.ntohl t
      else if size == 8
      then o.ntohll t
      else 0

-- The sizes of the integer types.
pub data Size : ℕ → Type 0 where
  one : Size 1
  two : Size 2
  four : Size 4
  eight : Size 8

load_one : (bs : List ℕ) → length bs ≡ 1 → load bs ≡ network_value bs
load_one [] e = refl
load_one (b ∷ []) e = omega arith
load_one (b ∷ c ∷ bs) e = absurd (omega arith)

pub network_value-network_bytes :
    {n : ℕ} (v : ℕ) → Size n → v < 256 ^ n → network_value (network_bytes n v) ≡ v
network_value-network_bytes v one h = network_value-bytes_1 v h
network_value-network_bytes v two h = network_value-bytes_2 v h
network_value-network_bytes v four h = network_value-bytes_4 v h
network_value-network_bytes v eight h = network_value-bytes_8 v h

module _ (o : NetOrder) where
  -- A serialized integer lies in memory in network order.
  pub serialize-network_bytes :
      {n : ℕ} (v : ℕ) → Size n → v < 256 ^ n → store n (serialize o n v) ≡ network_bytes n v
  unfolding serialize
  serialize-network_bytes v one h = ap (λ x. x ∷ []) (omega arith)
  serialize-network_bytes v two h = o.htons_stores v h
  serialize-network_bytes v four h = o.htonl_stores v h
  serialize-network_bytes v eight h = o.htonll_stores v h

  -- An integer that is loaded from network data is read in that order.
  pub unserialize-network_value :
      {n : ℕ} (bs : List ℕ)
      → Size n
      → All IsByte bs
      → length bs ≡ n
      → unserialize o n (load bs) ≡ network_value bs
  unfolding unserialize
  unserialize-network_value bs one h e = load_one bs e
  unserialize-network_value bs two h e = o.ntohs_loads bs h e
  unserialize-network_value bs four h e = o.ntohl_loads bs h e
  unserialize-network_value bs eight h e = o.ntohll_loads bs h e
