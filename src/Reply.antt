-- ===== src/Reply.antt =====
-- The reply of the directory service on a room: four lines that name a proxy
-- (ParseHttpResponse of Monitor/Monitor/ScreenMgr.cpp, with the strtok_s and atoi that it calls).
pub mod Tokens
pub mod Lines
mod Examples
use mathlib.Core.Option
use real_time_monitor_agent.Base.{
  ℕ, zero, suc, ◌+◌, ◌-◌, ◌*◌, ◌%◌, ◌^◌, List, [], ◌∷◌, ◌++◌, Option, none, some, Bool, true, false,
  ◌&&◌, ◌||◌, ◌==◌, ltb, leb, length, if◌then◌else◌,
}
use real_time_monitor_agent.Store.{PjStatus, success, einval}

-- The memory from a `char *` on, as far as it may be read. `none`: it is read further.
abbrev pub Memory : Type 0
Memory = List ℕ

abbrev pub delim : ℕ
delim = 10

-- strtok_s skips the delimiters in front, and then looks for the next one or the zero byte.
unfoldable pub skip_delims : Memory → Option Memory
skip_delims [] = none
skip_delims (c ∷ m) = let rest = skip_delims m in if c == delim then rest else some (c ∷ m)

-- The token, and where the next call starts.
unfoldable pub cut_token : Memory → Option (List ℕ × Memory)
cut_token [] = none
cut_token (c ∷ m) =
    let longer = Option.map (λ (r : List ℕ × Memory). (c ∷ r.0, r.1)) (cut_token m) in
    if c == 0 then some ([], c ∷ m) else if c == delim then some ([], m) else longer

-- The result of a call: a token, or the null pointer.
unfoldable pub strtok : Memory → Option (Option (List ℕ) × Memory)
unfolding skip_delims cut_token
strtok m = elim (skip_delims m) [
  | none ↦ none
  | some m' ↦ elim m' [
    | [] ↦ none
    | c ∷ rest ↦
        if c == 0
        then some (none, c ∷ rest)
        else Option.map (λ (r : List ℕ × Memory). (some r.0, r.1)) (cut_token (c ∷ rest))
  ]
]

-- `isspace` in the "C" locale.
abbrev pub is_space : ℕ → Bool
is_space c = c == 32 || (leb 9 c && leb c 13)

abbrev pub is_digit : ℕ → Bool
is_digit c = leb 48 c && leb c 57

unfoldable pub skip_spaces : List ℕ → List ℕ
skip_spaces [] = []
skip_spaces (c ∷ s) = let rest = skip_spaces s in if is_space c then rest else c ∷ s

-- The digits in front, as a number; `n` is that of those before.
unfoldable pub leading_digits : ℕ → List ℕ → ℕ
leading_digits n [] = n
leading_digits n (c ∷ s) =
    let rest = leading_digits (n * 10 + (c - 48)) s in if is_digit c then rest else n

-- `atoi` as the 32 bits of the integer; `none` where the number is none of an `int`.
unfoldable pub positive : ℕ → Option ℕ
positive n = if ltb n (2 ^ 31) then some n else none

unfoldable pub negative : ℕ → Option ℕ
negative n = if leb n (2 ^ 31) then some ((2 ^ 32 - n) % 2 ^ 32) else none

unfoldable pub atoi : List ℕ → Option ℕ
unfolding skip_spaces leading_digits positive negative
atoi s = elim (skip_spaces s) [
  | [] ↦ some 0
  | c ∷ rest ↦
      if c == 45
      then negative (leading_digits 0 rest)
      else if c == 43
      then positive (leading_digits 0 rest)
      else positive (leading_digits 0 (c ∷ rest))
]

-- The four parameters that are filled in.
pub record ProxyAddress : Type 0 where
  pub proxy_id : ℕ
  pub proxy_ip : List ℕ
  pub proxy_tcp_port : ℕ
  pub proxy_udp_port : ℕ

-- `overrun`: bytes behind the response are read. `undefined`: `atoi` is called on a number too large.
pub data Parsed : Type 0 where
  parsed : PjStatus → ProxyAddress → Parsed
  overrun : Parsed
  undefined : Parsed

abbrev pub port_of : ℕ → ℕ
port_of n = n % 2 ^ 16

-- The enumeration of the tokens; its end is TOKEN_SIZE.
pub data Token : Type 0 where
  proxy_id_token proxy_ip_token tcp_port_token udp_port_token : Token

-- The switch.
unfoldable pub assign : Token → List ℕ → ProxyAddress → Option ProxyAddress
unfolding atoi
assign proxy_id_token s p = Option.map (λ n. record p { proxy_id = port_of n }) (atoi s)
assign proxy_ip_token s p = some (record p { proxy_ip = s })
assign tcp_port_token s p = Option.map (λ n. record p { proxy_tcp_port = port_of n }) (atoi s)
assign udp_port_token s p = Option.map (λ n. record p { proxy_udp_port = port_of n }) (atoi s)

-- The loop, for the tokens that `i` has not counted, the result `s` of the last call of strtok_s and
-- its `next`; then `i == TOKEN_SIZE`.
unfoldable pub parse_tokens : List Token → Option (List ℕ) → Memory → ProxyAddress → Parsed
unfolding strtok assign
parse_tokens [] s next p = parsed success p
parse_tokens (i ∷ is) none next p = parsed einval p
parse_tokens (i ∷ is) (some s) next p = elim (assign i s p) [
  | none ↦ undefined
  | some p' ↦ elim (strtok next) [ none ↦ overrun | some (s', next') ↦ parse_tokens is s' next' p' ]
]

-- For a response of `size` bytes, and the memory from its first byte on.
unfoldable pub parse_http_response : ProxyAddress → ℕ → Memory → Parsed
unfolding strtok parse_tokens
parse_http_response p size memory =
    if ltb 0 size
    then elim (strtok memory) [
      | none ↦ overrun
      | some (s, next) ↦
          parse_tokens
            (proxy_id_token ∷ (proxy_ip_token ∷ (tcp_port_token ∷ (udp_port_token ∷ [])))) s next p
    ]
    else parsed einval p
