-- ===== src/Wire/Order.antt =====
-- Integers in memory, and the byte order functions of the network libraries (ntohs and its
-- family), which the program calls and does not define: they are the interface `NetOrder`.
use real_time_monitor_agent.Base.{
  ℕ, zero, suc, ◌+◌, ◌*◌, ◌/◌, ◌%◌, ◌^◌, ◌<◌, ◌≡◌, refl, ap, List, [], ◌∷◌, arith, length, All,
}
use mathlib.Core.Path.{ap₂}
use real_time_monitor_agent.Base.Words.{IsByte, IsU16, IsU32}

-- The value of a load through a pointer on the little-endian x86 machine that the program runs on.
abbrev pub load : List ℕ → ℕ
load [] = 0
load (b ∷ bs) = b + 256 * load bs

-- The `n` bytes that a store of `v` leaves in memory.
abbrev pub store : ℕ → ℕ → List ℕ
store zero v = []
store (suc n) v = (v % 256) ∷ store n (v / 256)

-- The number that bytes in network order stand for, and the `n` bytes of a number in that order.
abbrev pub network_value : List ℕ → ℕ
network_value [] = 0
network_value (b ∷ bs) = b * 256 ^ length bs + network_value bs

abbrev pub network_bytes : ℕ → ℕ → List ℕ
network_bytes zero v = []
network_bytes (suc n) v = (v / 256 ^ n % 256) ∷ network_bytes n v

-- What the documentation of these functions promises: a value made for the network lies in memory
-- in network order, and one loaded from network data is read in that order.
pub record NetOrder : Type 0 where
  pub htons : ℕ → ℕ
  pub htonl : ℕ → ℕ
  pub htonll : ℕ → ℕ
  pub ntohs : ℕ → ℕ
  pub ntohl : ℕ → ℕ
  pub ntohll : ℕ → ℕ
  pub htons_stores : (v : ℕ) → IsU16 v → store 2 (htons v) ≡ network_bytes 2 v
  pub htonl_stores : (v : ℕ) → IsU32 v → store 4 (htonl v) ≡ network_bytes 4 v
  pub htonll_stores : (v : ℕ) → v < 2 ^ 64 → store 8 (htonll v) ≡ network_bytes 8 v
  pub ntohs_loads :
      (bs : List ℕ) → All IsByte bs → length bs ≡ 2 → ntohs (load bs) ≡ network_value bs
  pub ntohl_loads :
      (bs : List ℕ) → All IsByte bs → length bs ≡ 4 → ntohl (load bs) ≡ network_value bs
  pub ntohll_loads :
      (bs : List ℕ) → All IsByte bs → length bs ≡ 8 → ntohll (load bs) ≡ network_value bs

pub length-network_bytes : (n v : ℕ) → length (network_bytes n v) ≡ n
length-network_bytes zero v = refl
length-network_bytes (suc n) v = ap suc (length-network_bytes n v)

pub network_bytes-IsByte : (n v : ℕ) → All IsByte (network_bytes n v)
network_bytes-IsByte zero v = tt
network_bytes-IsByte (suc n) v = (omega arith, network_bytes-IsByte n v)

-- Reading back what was written, for a value that fits.
pub network_value-bytes_1 : (v : ℕ) → v < 256 → network_value (network_bytes 1 v) ≡ v
network_value-bytes_1 v h = omega arith

pub network_value-bytes_2 : (v : ℕ) → IsU16 v → network_value (network_bytes 2 v) ≡ v
network_value-bytes_2 v h = omega arith

pub network_value-bytes_4 : (v : ℕ) → IsU32 v → network_value (network_bytes 4 v) ≡ v
network_value-bytes_4 v h = omega arith

pub network_value-bytes_8 : (v : ℕ) → v < 2 ^ 64 → network_value (network_bytes 8 v) ≡ v
network_value-bytes_8 v h = omega arith

-- Memory keeps the bytes that were stored.
pub store-load : (bs : List ℕ) → All IsByte bs → store (length bs) (load bs) ≡ bs
store-load [] h = refl
store-load (b ∷ bs) (hb, hbs) =
    ap₂ ◌∷◌ (omega arith) (rw (div_load b (load bs) hb) (store-load bs hbs))
  where
    div_load : (b v : ℕ) → b < 256 → (b + 256 * v) / 256 ≡ v
    div_load b v h = omega arith

pub store_network : (n v : ℕ) → store n (load (network_bytes n v)) ≡ network_bytes n v
store_network n v =
    rw (length-network_bytes n v) at (store-load (network_bytes n v) (network_bytes-IsByte n v))

pub loads_network :
    (n : ℕ) (bs : List ℕ)
    → All IsByte bs
    → length bs ≡ n
    → network_value (store n (load bs)) ≡ network_value bs
loads_network n bs h e = ap network_value (rw e at (store-load bs h))

-- The functions of a little-endian machine: they reverse the bytes.
abbrev pub x86_order : NetOrder
x86_order = record {
  htons = λ v. load (network_bytes 2 v);
  htonl = λ v. load (network_bytes 4 v);
  htonll = λ v. load (network_bytes 8 v);
  ntohs = λ v. network_value (store 2 v);
  ntohl = λ v. network_value (store 4 v);
  ntohll = λ v. network_value (store 8 v);
  htons_stores = λ v h. store_network 2 v;
  htonl_stores = λ v h. store_network 4 v;
  htonll_stores = λ v h. store_network 8 v;
  ntohs_loads = loads_network 2;
  ntohl_loads = loads_network 4;
  ntohll_loads = loads_network 8;
}
