-- ===== src/Reply/Lines.antt =====
-- What ParseHttpResponse makes of four lines (Monitor/Monitor/ScreenMgr.cpp).
use real_time_monitor_agent.Base.{
  ℕ, ◌%◌, ◌^◌, ◌<◌, ◌≡◌, refl, ◌∙◌, List, [], ◌∷◌, ◌++◌, Option, none, some, arith,
}
use real_time_monitor_agent.Store.{success}
use real_time_monitor_agent.Reply.{
  Memory, delim, strtok, atoi, ProxyAddress, parsed, overrun, Token, proxy_id_token, proxy_ip_token,
  tcp_port_token, udp_port_token, assign, parse_tokens, parse_http_response,
}
use real_time_monitor_agent.Reply.Tokens.{
  IsLine, strtok-line, strtok-zero, strtok-end, Digits, value, text, atoi-text, text-AllIn,
}

-- A number as it is written: its digits.
pub record Numeral : Type 0 where
  pub first : ℕ
  pub others : List ℕ
  pub digits : Digits (first ∷ others)
  pub fits : value 0 (first ∷ others) < 2 ^ 31

abbrev pub written : Numeral → List ℕ
written n = text (n.first ∷ n.others)

abbrev pub number : Numeral → ℕ
number n = value 0 (n.first ∷ n.others)

written-IsLine : (n : Numeral) → IsLine (written n)
written-IsLine n = text-AllIn (n.first ∷ n.others) n.digits

atoi-written : (n : Numeral) → atoi (written n) ≡ some (number n)
atoi-written n = atoi-text n.first n.others n.digits n.fits

-- The lines, and the memory behind them.
abbrev pub four_lines : Numeral → List ℕ → Numeral → Numeral → Memory → Memory
four_lines id ip tcp_port udp_port behind =
    written id
    ++ (delim
        ∷ (ip ++ (delim ∷ (written tcp_port ++ (delim ∷ (written udp_port ++ (delim ∷ behind)))))))

-- The record that the lines describe.
abbrev pub described : Numeral → List ℕ → Numeral → Numeral → ProxyAddress
described id ip tcp_port udp_port = record {
  proxy_id = number id % 2 ^ 16;
  proxy_ip = ip;
  proxy_tcp_port = number tcp_port % 2 ^ 16;
  proxy_udp_port = number udp_port % 2 ^ 16;
}

-- A round of the loop whose token is read, followed by another one.
round :
    (i : Token) (is : List Token) (s s' : List ℕ) (next rest : Memory) (p p' : ProxyAddress)
    → assign i s p ≡ some p'
    → strtok next ≡ some (some s', rest)
    → parse_tokens (i ∷ is) (some s) next p ≡ parse_tokens is (some s') rest p'
unfolding parse_tokens
round i is s s' next rest p p' e e' = ground (arith, e, e')

last_round :
    (i : Token) (s : List ℕ) (s' : Option (List ℕ)) (next rest : Memory) (p p' : ProxyAddress)
    → assign i s p ≡ some p'
    → strtok next ≡ some (s', rest)
    → parse_tokens (i ∷ []) (some s) next p ≡ parsed success p'
unfolding parse_tokens
last_round i s s' next rest p p' e e' = ground (arith, e, e')

runs_over :
    (i : Token) (is : List Token) (s : List ℕ) (next : Memory) (p p' : ProxyAddress)
    → assign i s p ≡ some p'
    → strtok next ≡ none
    → parse_tokens (i ∷ is) (some s) next p ≡ overrun
unfolding parse_tokens
runs_over i is s next p p' e e' = ground (arith, e, e')

starts :
    (p : ProxyAddress) (size : ℕ) (memory : Memory) (s : Option (List ℕ)) (next : Memory)
    → 0 < size
    → strtok memory ≡ some (s, next)
    → parse_http_response p size memory
      ≡ parse_tokens
          (proxy_id_token ∷ (proxy_ip_token ∷ (tcp_port_token ∷ (udp_port_token ∷ []))))
          s
          next
          p
unfolding parse_http_response
starts p size memory s next some_bytes e = ground (arith, e)

module _ (id : Numeral) (ip : List ℕ) (tcp_port udp_port : Numeral) (ip-IsLine : IsLine ip) where
  assign-number :
      (n : Numeral) (p : ProxyAddress)
      → (assign proxy_id_token (written n) p ≡ some (record p { proxy_id = number n % 2 ^ 16 }))
        × (assign tcp_port_token (written n) p
            ≡ some (record p { proxy_tcp_port = number n % 2 ^ 16 }))
        × (assign udp_port_token (written n) p
            ≡ some (record p { proxy_udp_port = number n % 2 ^ 16 }))
  unfolding assign
  assign-number n p = rw (atoi-written n) (refl, refl, refl)

  -- The four tokens are read, before strtok_s is called once more.
  reads_lines :
      (p : ProxyAddress) (size : ℕ) (behind : Memory)
      → 0 < size
      → parse_http_response p size (four_lines id ip tcp_port udp_port behind)
        ≡ parse_tokens (udp_port_token ∷ []) (some (written udp_port)) behind (record p {
          proxy_id = number id % 2 ^ 16;
          proxy_ip = ip;
          proxy_tcp_port = number tcp_port % 2 ^ 16;
        })
  reads_lines p size behind some_bytes =
      let p₁ : ProxyAddress = record p { proxy_id = number id % 2 ^ 16 } in
      let p₂ : ProxyAddress = record p₁ { proxy_ip = ip } in
      let p₃ : ProxyAddress = record p₂ { proxy_tcp_port = number tcp_port % 2 ^ 16 } in
      starts p size _ _ _ some_bytes (strtok-line (written id) _ (written-IsLine id))
      ∙ round proxy_id_token _ (written id) ip _ _ p p₁ (assign-number id p).0
          (strtok-line ip _ ip-IsLine)
      ∙ round proxy_ip_token _ ip (written tcp_port) _ _ p₁ p₂ (unfold assign in refl)
          (strtok-line (written tcp_port) _ (written-IsLine tcp_port))
      ∙ round tcp_port_token _ (written tcp_port) (written udp_port) _ behind p₂ p₃
          (assign-number tcp_port p₂).1
          (strtok-line (written udp_port) behind (written-IsLine udp_port))

  -- Four lines, whatever the parameters were before: a number, a text, a number and a number, each an
  -- `int` in decimal, and the text without a line feed or a zero byte. If a zero byte lies behind
  -- them, ParseHttpResponse succeeds with the text and the numbers modulo 2^16. If not, it reads
  -- behind the response: strtok_s is called once more before the count of the tokens is tested.
  pub parse_http_response-lines :
      (p : ProxyAddress) (size : ℕ) (rest : Memory)
      → 0 < size
      → (parse_http_response p size (four_lines id ip tcp_port udp_port (0 ∷ rest))
          ≡ parsed success (described id ip tcp_port udp_port))
        × (parse_http_response p size (four_lines id ip tcp_port udp_port []) ≡ overrun)
  parse_http_response-lines p size rest some_bytes =
      let p₃ : ProxyAddress = record p {
        proxy_id = number id % 2 ^ 16;
        proxy_ip = ip;
        proxy_tcp_port = number tcp_port % 2 ^ 16;
      } in
      (
        reads_lines p size (0 ∷ rest) some_bytes
            ∙ last_round udp_port_token (written udp_port) none _ (0 ∷ rest) p₃ _
                (assign-number udp_port p₃).2 (strtok-zero rest),
        reads_lines p size [] some_bytes
            ∙ runs_over udp_port_token [] (written udp_port) [] p₃ _ (assign-number udp_port p₃).2
                strtok-end,
      )
