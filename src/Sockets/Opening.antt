-- ===== src/Sockets/Opening.antt =====
-- Which sockets stay open (Monitor/Monitor/Com.cpp), and which payloads fit (RTPSession.cpp).
use real_time_monitor_agent.Base.{
  ℕ, ◌+◌, ◌<◌, ◌↔◌, ◌≤◌, ◌≡◌, ◌≢◌, refl, List, ◌∷◌, ◌++◌, Bool, true, false, length, ◌⊎◌, inl, inr,
  arith, Bool-cases, length-append,
}
use real_time_monitor_agent.Store.{PjStatus, success, einval, eexists, enotfound, failed}
use real_time_monitor_agent.Sockets.{
  Answers, Selected, Opened, or_close, unless_ioctl, open_tcp_serverport, on_select,
  open_tcp_clientport, open_udp_transport, max_udp_data_size, overflow, sends, send_rtp_packet,
}

-- What a caller expects: the socket is open exactly if the call succeeds.
abbrev pub IsTidy : ℕ → List ℕ → Opened → Type 0
IsTidy sock left o =
    ((o.status ≡ success) × (o.open_socks ≡ sock ∷ left))
    ⊎ ((o.status ≢ success) × (o.open_socks ≡ left))

module _ (sock : ℕ) (left : List ℕ) where
  or_close-IsTidy :
      (s : PjStatus) (rest : Opened)
      → (s ≡ success → IsTidy sock left rest)
      → IsTidy sock left (or_close s left rest)
  or_close-IsTidy success rest v = v refl
  or_close-IsTidy einval rest v = inr ((λ e. cc), refl)
  or_close-IsTidy eexists rest v = inr ((λ e. cc), refl)
  or_close-IsTidy enotfound rest v = inr ((λ e. cc), refl)
  or_close-IsTidy failed rest v = inr ((λ e. cc), refl)

  unless_ioctl-IsTidy :
      (bad : Bool) (s : PjStatus)
      → s ≡ success
      → IsTidy sock left (unless_ioctl bad left (record { status = s; open_socks = sock ∷ left }))
  unless_ioctl-IsTidy true s e = inr ((λ e'. cc), refl)
  unless_ioctl-IsTidy false s e = inl (e, refl)

open_tcp_serverport-IsTidy :
    (a : Answers) (left : List ℕ) → IsTidy a.sock left (open_tcp_serverport a left)
unfolding open_tcp_serverport
open_tcp_serverport-IsTidy a left = or_close-IsTidy a.sock left a.created _ λ e₁.
    or_close-IsTidy a.sock left a.option _ λ e₂. or_close-IsTidy a.sock left a.address _ λ e₃.
      or_close-IsTidy a.sock left a.bound _ λ e₄.
        or_close-IsTidy a.sock left a.listening _
          λ e₅. unless_ioctl-IsTidy a.sock left a.ioctl a.listening e₅

open_udp_transport-IsTidy :
    (given : Bool) (a : Answers) (left : List ℕ)
    → IsTidy a.sock left (open_udp_transport given a left)
unfolding open_udp_transport
open_udp_transport-IsTidy true a left = or_close-IsTidy a.sock left a.created _ λ e₁.
    or_close-IsTidy a.sock left a.option _ λ e₂. or_close-IsTidy a.sock left a.address _ λ e₃.
      or_close-IsTidy a.sock left a.bound _ λ e₄. unless_ioctl-IsTidy a.sock left a.ioctl a.bound e₄
open_udp_transport-IsTidy false a left = or_close-IsTidy a.sock left a.created _ λ e₁.
    or_close-IsTidy a.sock left a.option _ λ e₂. unless_ioctl-IsTidy a.sock left a.ioctl a.option e₂

-- The client's socket got as far as the select, which does not report it ready.
pub record NotReady (a : Answers) (selected : Selected) : Type 0 where
  pub created : a.created ≡ success
  pub address : a.address ≡ success
  pub blocking : a.ioctl ≡ false
  pub select : on_select selected ≢ success

success-cases : (s : PjStatus) → (s ≡ success) ⊎ (s ≢ success)
success-cases success = inl refl
success-cases einval = inr (λ e. cc)
success-cases eexists = inr (λ e. cc)
success-cases enotfound = inr (λ e. cc)
success-cases failed = inr (λ e. cc)

connected-IsTidy :
    (sock : ℕ) (left : List ℕ) (bad : Bool) (s : PjStatus)
    → (bad ≡ false → s ≢ success → ⊥)
    → IsTidy sock left (unless_ioctl bad left (record { status = s; open_socks = sock ∷ left }))
connected-IsTidy sock left true s no_leak = inr ((λ e. cc), refl)
connected-IsTidy sock left false s no_leak = elim (success-cases s) [
  | inl fine ↦ inl (fine, refl)
  | inr bad ↦ absurd (no_leak refl bad)
]

open_tcp_clientport-IsTidy :
    (a : Answers) (selected : Selected) (left : List ℕ)
    → ¬ NotReady a selected
    → IsTidy a.sock left (open_tcp_clientport a selected left)
unfolding open_tcp_clientport
open_tcp_clientport-IsTidy a selected left no_leak = or_close-IsTidy a.sock left a.created _ λ e₁.
    or_close-IsTidy a.sock left a.address _ λ e₂.
      connected-IsTidy a.sock left a.ioctl (on_select selected)
        λ e₃ bad. no_leak (record { created = e₁; address = e₂; blocking = e₃; select = bad })

open_tcp_clientport-leaks :
    (a : Answers) (selected : Selected) (left : List ℕ)
    → NotReady a selected
    → ((open_tcp_clientport a selected left).status ≢ success)
      × ((open_tcp_clientport a selected left).open_socks ≡ a.sock ∷ left)
unfolding open_tcp_clientport
open_tcp_clientport-leaks a selected left v = rw (v.created, v.address, v.blocking) (v.select, refl)

NotReady-cases : (a : Answers) (selected : Selected) → NotReady a selected ⊎ (¬ NotReady a selected)
NotReady-cases a selected = elim (success-cases a.created) [
  | inr bad ↦ inr (λ v. bad v.created)
  | inl created ↦ elim (success-cases a.address) [
    | inr bad ↦ inr (λ v. bad v.address)
    | inl address ↦ elim (Bool-cases a.ioctl) [
      | inl on ↦ inr (λ v. cc (on, v.blocking))
      | inr off ↦ elim (success-cases (on_select selected)) [
        | inl fine ↦ inr (λ v. v.select fine)
        | inr bad ↦
            inl (record { created = created; address = address; blocking = off; select = bad })
      ]
    ]
  ]
]

-- Whatever the network library answers, the functions that open a TCP server or a UDP socket leave it
-- open exactly if they succeed. So does the one that opens a TCP client, unless the socket is made
-- and pj_sock_select fails, times out or reports neither set: then it fails and leaves the socket open.
pub open_sockets-IsTidy :
    (given : Bool) (a : Answers) (selected : Selected) (left : List ℕ)
    → IsTidy a.sock left (open_tcp_serverport a left)
      × IsTidy a.sock left (open_udp_transport given a left)
      × (((¬ NotReady a selected) × IsTidy a.sock left (open_tcp_clientport a selected left))
          ⊎ (NotReady a selected
              × ((open_tcp_clientport a selected left).status ≢ success)
              × ((open_tcp_clientport a selected left).open_socks ≡ a.sock ∷ left)))
open_sockets-IsTidy given a selected left = (
  open_tcp_serverport-IsTidy a left,
  open_udp_transport-IsTidy given a left,
  elim (NotReady-cases a selected) [
    | inl v ↦
        let (fails, stays) = open_tcp_clientport-leaks a selected left v in inr (v, fails, stays)
    | inr tidy ↦ inl (tidy, open_tcp_clientport-IsTidy a selected left tidy)
  ],
)

-- The array of 1472 bytes is written past its end.
abbrev pub Overflows : PjStatus → List ℕ → List ℕ → Type 0
Overflows encoded header payload =
    (encoded ≡ success)
    × (length payload ≤ max_udp_data_size)
    × (max_udp_data_size < length header + length payload)

Overflows-iff :
    (encoded address : PjStatus) (header payload : List ℕ)
    → length header ≤ max_udp_data_size
    → (send_rtp_packet encoded header address payload ≡ overflow) ↔ Overflows encoded header payload
unfolding send_rtp_packet
Overflows-iff encoded address header payload small = (
  λ e. (ground (arith, e), ground (arith, e), ground (arith, e)),
  λ h. ground (arith, h.0, h.1, h.2),
)

sends_within :
    (encoded address : PjStatus) (header payload bytes : List ℕ)
    → send_rtp_packet encoded header address payload ≡ sends bytes
    → (bytes ≡ header ++ payload) × (length bytes ≤ max_udp_data_size) × (address ≡ success)
unfolding send_rtp_packet
sends_within encoded address header payload bytes e =
    (ground (arith, e), ground (arith, e, length-append header payload), ground (arith, e))

-- Whatever the library answers, for a header of at most 1472 bytes: SendRTPPacket writes behind its array
-- exactly when the header is encoded and the payload fits the array alone but not together with the
-- header; and what it sends is the header and the payload, in at most 1472 bytes, to a valid address.
pub send_rtp_packet-Overflows :
    (encoded address : PjStatus) (header payload : List ℕ)
    → length header ≤ max_udp_data_size
    → ((send_rtp_packet encoded header address payload ≡ overflow)
        ↔ Overflows encoded header payload)
      × ((bytes : List ℕ)
          → send_rtp_packet encoded header address payload ≡ sends bytes
          → (bytes ≡ header ++ payload) × (length bytes ≤ max_udp_data_size) × (address ≡ success))
send_rtp_packet-Overflows encoded address header payload small = (
  Overflows-iff encoded address header payload small,
  sends_within encoded address header payload,
)
