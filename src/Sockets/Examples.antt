-- ===== src/Sockets/Examples.antt =====
-- Sockets that are opened, and a datagram that is too long.
use real_time_monitor_agent.Base.{
  ℕ, zero, suc, ◌≤◌, ◌↔◌, ◌≡◌, ◌≢◌, List, [], ◌∷◌, ◌++◌, true, false, length, ◌⊎◌, arith,
}
use real_time_monitor_agent.Store.{success}
use real_time_monitor_agent.Sockets.{
  Answers, timeout, open_tcp_serverport, open_tcp_clientport, open_udp_transport, max_udp_data_size,
  overflow, sends, send_rtp_packet,
}
use real_time_monitor_agent.Sockets.Opening.{
  IsTidy, NotReady, open_sockets-IsTidy, Overflows, send_rtp_packet-Overflows,
}

abbrev answers : Answers
answers = record {
  created = success;
  sock = 5;
  option = success;
  address = success;
  bound = success;
  listening = success;
  ioctl = false;
}

open_sockets-IsTidy_example :
    IsTidy 5 [] (open_tcp_serverport answers [])
    × IsTidy 5 [] (open_udp_transport true answers [])
    × (((¬ NotReady answers timeout) × IsTidy 5 [] (open_tcp_clientport answers timeout []))
        ⊎ (NotReady answers timeout
            × ((open_tcp_clientport answers timeout []).status ≢ success)
            × ((open_tcp_clientport answers timeout []).open_socks ≡ 5 ∷ [])))
open_sockets-IsTidy_example = open_sockets-IsTidy true answers timeout []

abbrev zeros : ℕ → List ℕ
zeros zero = []
zeros (suc n) = 0 ∷ zeros n

send_rtp_packet-Overflows_example :
    ((send_rtp_packet success (zeros 12) success (zeros 1461) ≡ overflow)
      ↔ Overflows success (zeros 12) (zeros 1461))
    × ((bytes : List ℕ)
        → send_rtp_packet success (zeros 12) success (zeros 1461) ≡ sends bytes
        → (bytes ≡ zeros 12 ++ zeros 1461)
          × (length bytes ≤ max_udp_data_size)
          × (success ≡ success))
send_rtp_packet-Overflows_example =
    send_rtp_packet-Overflows success success (zeros 12) (zeros 1461) (omega arith)
