-- ===== src/Proxies/Sends.antt =====
-- What was sent to a proxy by the time it has a status (Monitor/Monitor/AvsProxy.cpp).
use real_time_monitor_agent.Base.{
  ℕ, suc, ◌+◌, ◌≤◌, ◌≡◌, refl, List, [], ◌∷◌, ◌++◌, Option, none, some, arith, ◌==◌, if◌then◌else◌,
  Bool, true, false, append-nil, append_assoc, some_eq,
}
use native.Mathlib.Decide.{ℕ_discrete}
use mathlib.Core.Path.{subst₂}
use real_time_monitor_agent.Wire.Requests.{login}
use real_time_monitor_agent.Store.{
  Store, AvsProxy, AvsProxyStatus, uninit, logining, nating, online, Sent, tcp, udp, M, ok, fault,
  update, PjStatus, success, einval, eexists, enotfound, failed, proxy_at,
}
use real_time_monitor_agent.Store.Keeps.{Runs, Returned, Runs-bind}
use real_time_monitor_agent.Proxies.{set_status, on_success}

-- The packets of the login, and of the NAT request, to a proxy.
abbrev pub is_login : ℕ → Sent → Bool
is_login a (tcp b (login x)) = a == b
is_login a (tcp b _) = false
is_login a (udp b _) = false

abbrev pub is_nat : ℕ → Sent → Bool
is_nat a (tcp b _) = false
is_nat a (udp b _) = a == b

abbrev pub is_success : PjStatus → Bool
is_success success = true
is_success _ = false

-- `net` answers each send from those before it, so that it tells which were successful.
module _ (net : List Sent → Sent → PjStatus) where
  -- How many successful sends of a kind are in `l`, which came behind `before`.
  unfoldable pub successes : (Sent → Bool) → List Sent → List Sent → ℕ
  successes kind before [] = 0
  successes kind before (x ∷ l) =
      let rest = successes kind (before ++ (x ∷ [])) l in
      if kind x then if is_success (net before x) then suc rest else rest else rest

  -- How many logins and how many NAT datagrams were sent to a proxy successfully.
  abbrev pub logins : ℕ → List Sent → ℕ
  logins a sent = successes (is_login a) [] sent

  abbrev pub nats : ℕ → List Sent → ℕ
  nats a sent = successes (is_nat a) [] sent

  -- What was sent to a proxy by the time it has a status.
  abbrev pub Asked : ℕ → AvsProxyStatus → List Sent → Type 0
  Asked a s sent = elim s [
    | uninit ↦ Unit
    | logining ↦ 1 ≤ logins a sent
    | nating ↦ (1 ≤ logins a sent) × (3 ≤ nats a sent)
    | online ↦ (1 ≤ logins a sent) × (3 ≤ nats a sent)
  ]

  pub record Handshake (st : Store) : Type 0 where
    pub asked :
        (a : ℕ) (proxy : AvsProxy) → st.proxies a ≡ some proxy → Asked a proxy.status st.sent

  pub successes-append :
      (kind : Sent → Bool) (before l m : List Sent)
      → successes kind before (l ++ m) ≡ successes kind before l + successes kind (before ++ l) m
  unfolding successes
  successes-append kind before [] m = rw (append-nil before) (omega arith)
  successes-append kind before (x ∷ l) m =
      ground (arith, successes-append kind (before ++ (x ∷ [])) l m, append_assoc before (x ∷ []) l)

  -- One more send of a kind counts if it is successful.
  pub successes_one :
      (kind : Sent → Bool) (x : Sent) (sent : List Sent)
      → kind x ≡ true
      → net sent x ≡ success
      → successes kind [] (sent ++ (x ∷ [])) ≡ suc (successes kind [] sent)
  unfolding successes
  successes_one kind x sent fits e = ground (arith, successes-append kind [] sent (x ∷ []))

  -- Sending more does not hurt.
  pub successes_more :
      (kind : Sent → Bool) (l m : List Sent) → successes kind [] l ≤ successes kind [] (l ++ m)
  successes_more kind l m = omega (arith, successes-append kind [] l m)

  Asked-append : (a : ℕ) (s : AvsProxyStatus) (l m : List Sent) → Asked a s l → Asked a s (l ++ m)
  Asked-append a uninit l m h = tt
  Asked-append a logining l m h = omega (arith, successes_more (is_login a) l m)
  Asked-append a nating l m (h, g) =
      (omega (arith, successes_more (is_login a) l m), omega (arith, successes_more (is_nat a) l m))
  Asked-append a online l m (h, g) =
      (omega (arith, successes_more (is_login a) l m), omega (arith, successes_more (is_nat a) l m))

  pub sending :
      (st : Store) (l : List Sent) → Handshake st → Handshake (record st { sent = st.sent ++ l })
  sending st l v = record {
    asked = λ a proxy h. Asked-append a proxy.status st.sent l (v.asked a proxy h);
  }

  -- A status that fits what was sent may be set.
  pub restatus :
      (a : ℕ) (proxy : AvsProxy) (st : Store)
      → Handshake st
      → Asked a proxy.status st.sent
      → Handshake (record st { proxies = update st.proxies a (some proxy) })
  restatus a proxy st v w = record {
    asked = λ b other h. elim (ℕ_discrete a b) [
      | yes e ↦
          let same : proxy ≡ other = some_eq (ground arith) in
          subst₂ (λ c (o : AvsProxy). Asked c o.status st.sent) e same w
      | no ne ↦ v.asked b other (ground arith)
    ];
  }

pub Runs-proxy_at :
    {P : Store → Type 0} (a : ℕ)
    → Runs P (proxy_at a) (λ proxy st. P st × (st.proxies a ≡ some proxy))
Runs-proxy_at {P} a = record { run = λ st v. from st v (st.proxies a) refl }
  where
    from :
        (st : Store) (v : P st) (o : Option AvsProxy)
        → st.proxies a ≡ o
        → Returned
            (λ proxy st. P st × (st.proxies a ≡ some proxy))
            (elim o [ some u ↦ ok u st | none ↦ fault ])
    from st v none e = tt
    from st v (some u) e = (v, e)

module _ (net : List Sent → Sent → PjStatus) where
  pub Runs-on_success :
      {P : Store → Type 0} {rest : M PjStatus} (s : PjStatus)
      → ((st : Store) → P st → Handshake net st)
      → (s ≡ success → Runs P rest (λ x. Handshake net))
      → Runs P (on_success net s rest) (λ x. Handshake net)
  Runs-on_success success weak keep = keep refl
  Runs-on_success einval weak keep = record { run = λ st v. weak st v }
  Runs-on_success eexists weak keep = record { run = λ st v. weak st v }
  Runs-on_success enotfound weak keep = record { run = λ st v. weak st v }
  Runs-on_success failed weak keep = record { run = λ st v. weak st v }

  pub set_status-Runs :
      (a : ℕ) (s : AvsProxyStatus)
      → Runs (λ st. Handshake net st × Asked net a s st.sent) (set_status a s) (λ x. Handshake net)
  set_status-Runs a s =
      Runs-bind (Runs-proxy_at a) λ proxy. record {
        run = λ st v. restatus net a (record proxy { status = s }) st v.0.0 v.0.1;
      }
