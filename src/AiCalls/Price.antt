-- ===== src/AiCalls/Price.antt =====
-- The price of a call in backend/app/ai/pricing.py.
use support_flow.Prelude.{ℕ, ◌+◌, ◌*◌, ◌≤◌, arith}
use support_flow.AiCalls.{ModelRate, cost_usd}

-- The price that the ledger keeps is within half a millionth of a dollar of the exact one, and is never
-- less for more tokens.
pub cost_usd_bounds :
    (rate : ModelRate) (p k more more' : ℕ)
    → (100 * cost_usd rate p k ≤ p * rate.input_per_mtok + k * rate.output_per_mtok + 50)
      × (p * rate.input_per_mtok + k * rate.output_per_mtok ≤ 100 * cost_usd rate p k + 50)
      × (cost_usd rate p k ≤ cost_usd rate (p + more) (k + more'))
unfolding cost_usd
cost_usd_bounds rate p k more more' = (omega arith, omega arith, grind arith)
