-- ===== src/Reply/Tokens.antt =====
-- strtok_s and atoi on one line.
use real_time_monitor_agent.Base.{
  ℕ, ◌+◌, ◌*◌, ◌^◌, ◌<◌, ◌≡◌, ◌≢◌, refl, List, [], ◌∷◌, ◌++◌, none, some, map, arith,
}
use real_time_monitor_agent.Reply.{delim, cut_token, strtok, leading_digits, atoi}

-- Bytes of one line: no delimiter and no zero byte.
abbrev pub AllIn : List ℕ → Type 0
AllIn [] = Unit {0}
AllIn (c ∷ s) = (c ≢ 0) × (c ≢ delim) × AllIn s

abbrev pub IsLine : List ℕ → Type 0
IsLine [] = ⊥
IsLine (c ∷ s) = AllIn (c ∷ s)

cut_token-line : (s rest : List ℕ) → AllIn s → cut_token (s ++ (delim ∷ rest)) ≡ some (s, rest)
unfolding cut_token
cut_token-line [] rest v = refl
cut_token-line (c ∷ s) rest (nonzero, other, v) = ground (arith, cut_token-line s rest v)

pub strtok-line : (s rest : List ℕ) → IsLine s → strtok (s ++ (delim ∷ rest)) ≡ some (some s, rest)
unfolding strtok
strtok-line [] rest v = absurd v
strtok-line (c ∷ s) rest (nonzero, other, v) = ground (arith, cut_token-line s rest v)

pub strtok-zero : (rest : List ℕ) → strtok (0 ∷ rest) ≡ some (none, 0 ∷ rest)
unfolding strtok
strtok-zero rest = refl

pub strtok-end : strtok [] ≡ none
unfolding strtok
strtok-end = refl

-- The number that a text of digits stands for.
abbrev pub Digits : List ℕ → Type 0
Digits [] = Unit {0}
Digits (d ∷ ds) = (d < 10) × Digits ds

unfoldable pub value : ℕ → List ℕ → ℕ
value n [] = n
value n (d ∷ ds) = value (n * 10 + d) ds

abbrev pub text : List ℕ → List ℕ
text = map (λ d. 48 + d)

leading_digits-text : (n : ℕ) (ds : List ℕ) → Digits ds → leading_digits n (text ds) ≡ value n ds
unfolding leading_digits value
leading_digits-text n [] v = refl
leading_digits-text n (d ∷ ds) (small, v) = ground (arith, leading_digits-text (n * 10 + d) ds v)

pub atoi-text :
    (d : ℕ) (ds : List ℕ)
    → Digits (d ∷ ds)
    → value 0 (d ∷ ds) < 2 ^ 31
    → atoi (text (d ∷ ds)) ≡ some (value 0 (d ∷ ds))
unfolding atoi
atoi-text d ds v fits = ground (arith, leading_digits-text 0 (d ∷ ds) v)

pub text-AllIn : (ds : List ℕ) → Digits ds → AllIn (text ds)
text-AllIn [] v = tt
text-AllIn (d ∷ ds) (small, v) = (omega arith, omega arith, text-AllIn ds v)
