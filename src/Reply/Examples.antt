-- ===== src/Reply/Examples.antt =====
-- A reply: the proxy 7 at 1.2 with the port 80 twice.
use real_time_monitor_agent.Base.{ℕ, ◌≡◌, List, [], ◌∷◌, arith}
use real_time_monitor_agent.Store.{success}
use real_time_monitor_agent.Reply.{ProxyAddress, parsed, overrun, parse_http_response}
use real_time_monitor_agent.Reply.Tokens.{value}
use real_time_monitor_agent.Reply.Lines.{Numeral, four_lines, described, parse_http_response-lines}

abbrev seven : Numeral
unfolding value
seven = record { first = 7; others = []; digits = (omega arith, tt); fits = omega arith }

abbrev eighty : Numeral
unfolding value
eighty = record {
  first = 8;
  others = 0 ∷ [];
  digits = (omega arith, (omega arith, tt));
  fits = omega arith;
}

abbrev address : List ℕ
address = 49 ∷ (46 ∷ (50 ∷ []))

abbrev before : ProxyAddress
before = record { proxy_id = 100; proxy_ip = []; proxy_tcp_port = 12000; proxy_udp_port = 13000 }

parse_http_response-lines_example :
    (parse_http_response before 12 (four_lines seven address eighty eighty (0 ∷ []))
      ≡ parsed success (described seven address eighty eighty))
    × (parse_http_response before 12 (four_lines seven address eighty eighty []) ≡ overrun)
parse_http_response-lines_example =
    parse_http_response-lines seven address eighty eighty (omega arith) before 12 [] (omega arith)
