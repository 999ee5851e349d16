-- ===== src/Gateway/Budget.antt =====
-- `TokenCostBudget` of src/dfir_workbench/model_gateway.py. `reserve` holds the lock from its first
-- test to its last write, so threads that share a budget reserve one after the other, in some order:
-- `reserve_all` takes that order. Costs are natural numbers of a fixed fraction of the currency.
use dfir_evidence_workbench.Base.{
  ℕ, ◌+◌, ◌≤◌, ◌≡◌, refl, sym, ap, Bool, false, Option, none, some, List, [], ◌∷◌, ltb, arith,
}
use mathlib.Core.Path.{subst}
use dfir_evidence_workbench.Base.Result.{Result, ok, err, ◌>>◌, raise_if, raise_if-ok}
use dfir_evidence_workbench.Gateway.Config.{GatewayError, budget_exceeded}

pub record TokenCostBudget : Type 0 where
  pub max_tokens : ℕ
  pub max_cost : Option ℕ
  pub tokens : ℕ
  pub cost : ℕ

abbrev pub new_budget : ℕ → Option ℕ → TokenCostBudget
new_budget max_tokens max_cost = record {
  max_tokens = max_tokens;
  max_cost = max_cost;
  tokens = 0;
  cost = 0;
}

abbrev cost_of : Option ℕ → ℕ
cost_of none = 0
cost_of (some c) = c

abbrev over_cost : Option ℕ → ℕ → Option ℕ → Bool
over_cost none spent cost = false
over_cost (some limit) spent none = false
over_cost (some limit) spent (some c) = ltb limit (spent + c)

unfoldable pub reserve : TokenCostBudget → ℕ → Option ℕ → Result GatewayError TokenCostBudget
reserve b tokens cost = do
  raise_if (ltb b.max_tokens (b.tokens + tokens)) budget_exceeded
  raise_if (over_cost b.max_cost b.cost cost) budget_exceeded
  ok record b { tokens = b.tokens + tokens; cost = b.cost + cost_of cost }

-- The budget after an attempt to reserve, and what the attempt was granted.
unfoldable pub kept : TokenCostBudget → Result GatewayError TokenCostBudget → TokenCostBudget
kept b (ok c) = c
kept b (err e) = b

unfoldable pub granted : ℕ → Result GatewayError TokenCostBudget → ℕ
granted n (ok c) = n
granted n (err e) = 0

-- Reservations in the order in which they get the lock.
unfoldable pub reserve_all : TokenCostBudget → List (ℕ × Option ℕ) → TokenCostBudget
reserve_all b [] = b
reserve_all b ((tokens, cost) ∷ rs) = reserve_all (kept b (reserve b tokens cost)) rs

unfoldable pub granted_all : TokenCostBudget → List (ℕ × Option ℕ) → ℕ
granted_all b [] = 0
granted_all b ((tokens, cost) ∷ rs) =
    let r = reserve b tokens cost in granted tokens r + granted_all (kept b r) rs

unfoldable pub granted_cost : Option ℕ → Result GatewayError TokenCostBudget → ℕ
granted_cost none r = 0
granted_cost (some c) (ok b) = c
granted_cost (some c) (err e) = 0

-- The costs of the reservations that were granted.
unfoldable pub granted_costs : TokenCostBudget → List (ℕ × Option ℕ) → ℕ
granted_costs b [] = 0
granted_costs b ((tokens, cost) ∷ rs) =
    let r = reserve b tokens cost in granted_cost cost r + granted_costs (kept b r) rs

abbrev pub IsBelow : Option ℕ → ℕ → Type 0
IsBelow none n = Unit {0}
IsBelow (some limit) n = n ≤ limit

pub record IsWithin (b : TokenCostBudget) : Type 0 where
  pub tokens_bound : b.tokens ≤ b.max_tokens
  pub cost_bound : IsBelow b.max_cost b.cost

over_cost-IsBelow :
    (limit : Option ℕ) (spent : ℕ) (cost : Option ℕ)
    → IsBelow limit spent
    → over_cost limit spent cost ≡ false
    → IsBelow limit (spent + cost_of cost)
over_cost-IsBelow none spent cost w h = tt
over_cost-IsBelow (some limit) spent none w h = omega arith
over_cost-IsBelow (some limit) spent (some c) w h = ground arith

-- What a granted reservation did.
pub reserve-ok :
    (b c : TokenCostBudget) (tokens : ℕ) (cost : Option ℕ)
    → reserve b tokens cost ≡ ok c
    → (c ≡ record b { tokens = b.tokens + tokens; cost = b.cost + cost_of cost })
      × (b.tokens + tokens ≤ b.max_tokens)
      × (over_cost b.max_cost b.cost cost ≡ false)
unfolding reserve
reserve-ok b c tokens cost h =
    let h1 = raise_if-ok (ltb b.max_tokens (b.tokens + tokens)) budget_exceeded _ h in
    let h2 = raise_if-ok (over_cost b.max_cost b.cost cost) budget_exceeded _ h1.1 in
    (cc, within b.max_tokens (b.tokens + tokens) h1.0, h2.0)
  where
    within : (limit n : ℕ) → ltb limit n ≡ false → n ≤ limit
    within limit n h = ground arith

kept-IsWithin_at :
    (b : TokenCostBudget) (tokens : ℕ) (cost : Option ℕ) (r : Result GatewayError TokenCostBudget)
    → reserve b tokens cost ≡ r
    → IsWithin b
    → IsWithin (kept b r)
unfolding kept
kept-IsWithin_at b tokens cost (err e) h w = w
kept-IsWithin_at b tokens cost (ok c) h w =
    let r = reserve-ok b c tokens cost h in
    subst IsWithin (sym (r.0)) record {
      tokens_bound = r.1;
      cost_bound = over_cost-IsBelow b.max_cost b.cost cost w.cost_bound r.2;
    }

pub kept-IsWithin :
    (b : TokenCostBudget) (tokens : ℕ) (cost : Option ℕ)
    → IsWithin b
    → IsWithin (kept b (reserve b tokens cost))
kept-IsWithin b tokens cost = kept-IsWithin_at b tokens cost (reserve b tokens cost) refl

kept-tokens :
    (b : TokenCostBudget) (tokens : ℕ) (cost : Option ℕ) (r : Result GatewayError TokenCostBudget)
    → reserve b tokens cost ≡ r
    → ((kept b r).tokens ≡ b.tokens + granted tokens r) × ((kept b r).max_tokens ≡ b.max_tokens)
unfolding kept granted
kept-tokens b tokens cost (err e) h = (omega arith, refl)
kept-tokens b tokens cost (ok c) h =
    let r = reserve-ok b c tokens cost h in (ap (λ x. x.tokens) (r.0), ap (λ x. x.max_tokens) (r.0))

kept-cost :
    (b : TokenCostBudget) (tokens : ℕ) (cost : Option ℕ) (r : Result GatewayError TokenCostBudget)
    → reserve b tokens cost ≡ r
    → (kept b r).cost ≡ b.cost + granted_cost cost r
unfolding kept granted_cost
kept-cost b tokens none (err e) h = omega arith
kept-cost b tokens (some c) (err e) h = omega arith
kept-cost b tokens none (ok c) h = ap (λ x. x.cost) ((reserve-ok b c tokens none h).0)
kept-cost b tokens (some d) (ok c) h = ap (λ x. x.cost) ((reserve-ok b c tokens (some d) h).0)

-- In whatever order the threads get the lock, a budget within its limits stays within them, and
-- the tokens and the cost that it has spent are those that it had spent and those that were granted.
pub reserve_all-IsWithin :
    (b : TokenCostBudget) (rs : List (ℕ × Option ℕ))
    → IsWithin b
    → IsWithin (reserve_all b rs)
      × ((reserve_all b rs).tokens ≡ b.tokens + granted_all b rs)
      × (b.tokens + granted_all b rs ≤ b.max_tokens)
      × ((reserve_all b rs).cost ≡ b.cost + granted_costs b rs)
unfolding reserve_all granted_all granted_costs
reserve_all-IsWithin b [] w = (w, omega arith, omega (arith, w.tokens_bound), omega arith)
reserve_all-IsWithin b ((tokens, cost) ∷ rs) w =
    let r = reserve b tokens cost in
    let step = kept-tokens b tokens cost r refl in
    let rest = reserve_all-IsWithin (kept b r) rs (kept-IsWithin b tokens cost w) in
    let spent = kept-cost b tokens cost r refl in
    (
      rest.0,
      omega (arith, step.0, step.1, rest.1),
      omega (arith, step.0, step.1, rest.2),
      omega (arith, spent, rest.3),
    )
