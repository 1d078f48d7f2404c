-- ===== src/Guards/EscrowLamports/Shortfall.antt =====
-- What the guard of src/prompt/solEscrowGuardrail.js says is missing.
use intercom_swap.Prelude.{ℕ, ◌+◌, ◌*◌, ◌≤◌, ◌≡◌, Bool, true, false, arith, ◌↔◌, ◌⊎◌}
use intercom_swap.Js.Number.{nat}
use intercom_swap.Js.Value.{num, to_number}
use intercom_swap.Guards.EscrowLamports.{
  Request, to_safe_lamports, margin_of, add_account, required_lamports, compute_guardrail,
}

-- The same request, of an account that has so many lamports
abbrev pub funded : ℕ → Request → Request
funded lamports r = record r { payer_lamports = num (nat lamports) }

abbrev pub missing : Bool → ℕ
missing true = 0
missing false = 1

-- The lamports of the fee, the margin (25000 where none is asked for) and each account that is missing
abbrev pub costs : Request → ℕ
costs r =
    to_safe_lamports r.fee_lamports
    + to_safe_lamports (margin_of r.margin_lamports)
    + missing r.has_escrow_account * to_safe_lamports r.escrow_rent_lamports
    + (missing r.has_vault_account
        + missing r.has_platform_fee_vault_account
        + missing r.has_trade_fee_vault_account)
      * to_safe_lamports r.token_account_rent_lamports

required-costs : (r : Request) → (required_lamports r).0 ≡ costs r
unfolding required_lamports add_account
required-costs r = ground arith

-- What the guard says of a request: it passes with a number of lamports just if these are the fee,
-- the margin and the rent of each missing account at least; it asks for that many; and either it
-- passes and nothing is short, or it does not and the shortfall makes up just what is missing.
pub compute_guardrail-shortfall :
    (r : Request) (lamports : ℕ)
    → (((compute_guardrail (funded lamports r)).ok ≡ true) ↔ (costs r ≤ lamports))
      × ((compute_guardrail r).need_lamports ≡ costs r)
      × ((((compute_guardrail r).ok ≡ true) × ((compute_guardrail r).shortfall_lamports ≡ 0))
          ⊎ (((compute_guardrail r).ok ≡ false)
              × (to_safe_lamports r.payer_lamports + (compute_guardrail r).shortfall_lamports
                  ≡ costs r)))
unfolding compute_guardrail to_safe_lamports to_number
compute_guardrail-shortfall r lamports =
    let same = required-costs r in
    let other = required-costs (funded lamports r) in
    (ground (arith, other), same, ground (arith, same))
