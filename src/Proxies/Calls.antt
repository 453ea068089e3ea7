-- ===== src/Proxies/Calls.antt =====
-- The calls of the login of a proxy, and what was sent by the time it is online.
use real_time_monitor_agent.Base.{ℕ, List}
use real_time_monitor_agent.Store.{Store, Sent, M, PjStatus}
use real_time_monitor_agent.Store.Keeps.{Keeps, void, Keeps-void}
use real_time_monitor_agent.Store.Reaches.{Reaches, Reaches-Keeps}
use real_time_monitor_agent.Proxies.{proxy_login, on_rx_login, on_rx_nat, proxy_link_room}
use real_time_monitor_agent.Proxies.Sends.{Handshake}
use real_time_monitor_agent.Proxies.Login.{
  login-Handshake, on_rx_login-Handshake, on_rx_nat-Handshake, link_room-Handshake,
}

pub data Call : Type 0 where
  logs_in : (a : ℕ) → Call
  login_replied : (a : ℕ) → Call
  nat_replied : (a : ℕ) → Call
  links : (a r : ℕ) → Call

module _ (net : List Sent → Sent → PjStatus) where
  unfoldable pub perform : Call → M (Unit {0})
  perform (logs_in a) = void (proxy_login net a)
  perform (login_replied a) = void (on_rx_login net a)
  perform (nat_replied a) = void (on_rx_nat net a)
  perform (links a r) = void (proxy_link_room net a r)

  perform-Keeps : (c : Call) → Keeps (Handshake net) (perform c)
  unfolding perform
  perform-Keeps (logs_in a) = Keeps-void (login-Handshake net a)
  perform-Keeps (login_replied a) = Keeps-void (on_rx_login-Handshake net a)
  perform-Keeps (nat_replied a) = Keeps-void (on_rx_nat-Handshake net a)
  perform-Keeps (links a r) = Keeps-void (link_room-Handshake net a r)

  -- In every run of these calls on any number of proxies, whatever the sends return: to a proxy that
  -- waits for the reply to its login a login was sent with success, and to one that waits for the NAT
  -- reply or is online a login and three NAT datagrams, each with success, if this held before the run.
  pub Reaches-Handshake :
      (st st' : Store) → Handshake net st → Reaches perform st st' → Handshake net st'
  Reaches-Handshake st st' v run = Reaches-Keeps perform (Handshake net) perform-Keeps st st' v run
