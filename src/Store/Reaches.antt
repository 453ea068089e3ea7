-- ===== src/Store/Reaches.antt =====
-- Runs of the program: calls of methods one after another, in any order, as the threads come to them.
use real_time_monitor_agent.Base.{◌≡◌}
use real_time_monitor_agent.Store.{Store, M, ok}
use real_time_monitor_agent.Store.Keeps.{Keeps, Returned-ok}

module _ {Call : Type 0} (perform : Call → M (Unit {0})) where
  -- The stores that calls which return lead to.
  pub data Reaches (st : Store) : Store → Type 0 where
    start : Reaches st st
    call :
        (c : Call) (st₁ st₂ : Store) → Reaches st st₁ → perform c st₁ ≡ ok tt st₂ → Reaches st st₂

  pub Reaches-Keeps :
      (P : Store → Type 0)
      → ((c : Call) → Keeps P (perform c))
      → (st st' : Store) → P st
      → Reaches st st'
      → P st'
  Reaches-Keeps P keeps st st' v start = v
  Reaches-Keeps P keeps st st' v (call c st₁ _ before e) =
      Returned-ok (λ x. P) (perform c st₁) tt st'
        ((keeps c).run st₁ (Reaches-Keeps P keeps st st₁ v before)) e
