-- ===== src/Store/Keeps.antt =====
-- What a method does to predicates of the store, and the rules for methods made of others.
use real_time_monitor_agent.Base.{
  ℕ, ◌≡◌, refl, Option, none, some, Bool, true, false, if◌then◌else◌, sym,
}
use mathlib.Core.Path.{subst}
use real_time_monitor_agent.Store.{
  Store, User, TitleRoom, AvsProxy, M, Outcome, ok, deadlock, fault, stuck, pure, ◌>>=◌, user_at,
  room_at, proxy_at, screen_at,
}

-- `Q` holds of the result and the state behind a method that returns.
abbrev pub Returned : {A : Type 0} → (A → Store → Type 0) → Outcome A → Type 0
Returned Q o = elim o [ ok a st ↦ Q a st | deadlock ↦ Unit | fault ↦ Unit | stuck ↦ Unit ]

-- When the method returns and `P` held before, `Q` holds behind it.
pub record Runs {A : Type 0} (P : Store → Type 0) (m : M A) (Q : A → Store → Type 0) : Type 0 where
  pub run : (st : Store) → P st → Returned Q (m st)

abbrev pub Keeps : {A : Type 0} → (Store → Type 0) → M A → Type 0
Keeps P m = Runs P m (λ a st. P st)

Returned-bind :
    {A B : Type 0} (Q : A → Store → Type 0) (R : B → Store → Type 0) (o : Outcome A) (f : A → M B)
    → Returned Q o
    → ((a : A) → Runs (Q a) (f a) R)
    → Returned R
        (elim o [ ok a st' ↦ f a st' | deadlock ↦ deadlock | fault ↦ fault | stuck ↦ stuck ])
Returned-bind Q R (ok a st) f r k = (k a).run st r
Returned-bind Q R deadlock f r k = tt
Returned-bind Q R fault f r k = tt
Returned-bind Q R stuck f r k = tt

pub Runs-bind :
    {A B : Type 0} {P : Store → Type 0} {m : M A} {Q : A → Store → Type 0} {f : A → M B}
    {R : B → Store → Type 0}
    → Runs P m Q
    → ((a : A) → Runs (Q a) (f a) R)
    → Runs P (m >>= f) R
Runs-bind {A} {B} {P} {m} {Q} {f} {R} first rest = record {
  run = λ st v. Returned-bind Q R (m st) f (first.run st v) rest;
}

-- The rule of consequence.
Returned-weaken :
    {A : Type 0} (Q R : A → Store → Type 0) (o : Outcome A)
    → ((a : A) (st : Store) → Q a st → R a st)
    → Returned Q o
    → Returned R o
Returned-weaken Q R (ok a st) w r = w a st r
Returned-weaken Q R deadlock w r = tt
Returned-weaken Q R fault w r = tt
Returned-weaken Q R stuck w r = tt

pub Runs-weaken :
    {A : Type 0} {P P' : Store → Type 0} {m : M A} {Q Q' : A → Store → Type 0}
    → ((st : Store) → P' st → P st)
    → Runs P m Q
    → ((a : A) (st : Store) → Q a st → Q' a st)
    → Runs P' m Q'
Runs-weaken {A} {P} {P'} {m} {Q} {Q'} pre keep post = record {
  run = λ st v. Returned-weaken Q Q' (m st) post (keep.run st (pre st v));
}

pub Runs-equal :
    {A : Type 0} (Q : A → Store → Type 0) (m : M A) (st : Store) (a : A) (st' : Store)
    → m st ≡ ok a st'
    → Q a st'
    → Returned Q (m st)
Runs-equal Q m st a st' e q = subst (Returned Q) (sym e) q

pub Keeps-pure : {A : Type 0} {P : Store → Type 0} {a : A} → Keeps P (pure a)
Keeps-pure = record { run = λ st v. v }

pub Runs-option :
    {A : Type 0} {V : Type 0} {P : Store → Type 0} {n : M A} {s : V → M A} {Q : A → Store → Type 0}
    (o : Option V)
    → (o ≡ none → Runs P n Q)
    → ((v : V) → o ≡ some v → Runs P (s v) Q)
    → Runs P (elim o [ none ↦ n | some v ↦ s v ]) Q
Runs-option none keep keeps = keep refl
Runs-option (some v) keep keeps = keeps v refl

pub Runs-if :
    {A : Type 0} {P : Store → Type 0} {m n : M A} {Q : A → Store → Type 0} (b : Bool)
    → (b ≡ true → Runs P m Q)
    → (b ≡ false → Runs P n Q)
    → Runs P (if b then m else n) Q
Runs-if true keep keep' = keep refl
Runs-if false keep keep' = keep' refl

pub Runs-fault : {A : Type 0} {P : Store → Type 0} {Q : A → Store → Type 0} → Runs P (λ st. fault) Q
Runs-fault = record { run = λ st v. tt }

pub Runs-deadlock :
    {A : Type 0} {P : Store → Type 0} {Q : A → Store → Type 0} → Runs P (λ st. deadlock) Q
Runs-deadlock = record { run = λ st v. tt }

-- Reading a cell keeps `P` and tells what the cell holds.
pub Runs-user_at :
    {P : Store → Type 0} (p : ℕ) → Runs P (user_at p) (λ u st. P st × (st.users p ≡ some u))
Runs-user_at {P} p = record { run = λ st v. from st v (st.users p) refl }
  where
    from :
        (st : Store) (v : P st) (o : Option User)
        → st.users p ≡ o
        → Returned
            (λ u st. P st × (st.users p ≡ some u))
            (elim o [ some u ↦ ok u st | none ↦ fault ])
    from st v none e = tt
    from st v (some u) e = (v, e)

pub Runs-screen_at :
    {P : Store → Type 0} (s : ℕ)
    → Runs P (screen_at s) (λ screen st. P st × (st.screens s ≡ screen))
Runs-screen_at s = record { run = λ st v. (v, refl) }

pub Keeps-room_at : {P : Store → Type 0} (r : ℕ) → Keeps P (room_at r)
Keeps-room_at {P} r = record { run = λ st v. from st v (st.rooms r) }
  where
    from :
        (st : Store) (v : P st) (o : Option TitleRoom)
        → Returned (λ a st'. P st') (elim o [ some u ↦ ok u st | none ↦ fault ])
    from st v none = tt
    from st v (some u) = v

pub Keeps-proxy_at : {P : Store → Type 0} (a : ℕ) → Keeps P (proxy_at a)
Keeps-proxy_at {P} a = record { run = λ st v. from st v (st.proxies a) }
  where
    from :
        (st : Store) (v : P st) (o : Option AvsProxy)
        → Returned (λ a st'. P st') (elim o [ some u ↦ ok u st | none ↦ fault ])
    from st v none = tt
    from st v (some u) = v

pub Runs-bool :
    {A : Type 0} {P : Store → Type 0} {m n : M A} {Q : A → Store → Type 0} (b : Bool)
    → (b ≡ true → Runs P m Q)
    → (b ≡ false → Runs P n Q)
    → Runs P (elim b [ true ↦ m | false ↦ n ]) Q
Runs-bool true keep keep' = keep refl
Runs-bool false keep keep' = keep' refl

pub Runs-faults :
    {A : Type 0} (Q : A → Store → Type 0) (m : M A) (st : Store) → m st ≡ fault → Returned Q (m st)
Runs-faults Q m st e = subst (Returned Q) (sym e) tt

pub Returned-ok :
    {A : Type 0} (Q : A → Store → Type 0) (o : Outcome A) (a : A) (st : Store)
    → Returned Q o
    → o ≡ ok a st
    → Q a st
Returned-ok Q o a st r e = subst (Returned Q) e r

-- A method of which only the effect counts.
abbrev pub void : {A : Type 0} → M A → M (Unit {0})
void m = m >>= λ x. pure tt

pub Keeps-void : {A : Type 0} {P : Store → Type 0} {m : M A} → Keeps P m → Keeps P (void m)
Keeps-void keep = Runs-bind keep λ x. Keeps-pure {a = tt}
