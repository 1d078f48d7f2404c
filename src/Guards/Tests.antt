-- ===== src/Guards/Tests.antt =====
-- src/prompt/solEscrowGuardrail.js on an account that is short of one vault.
use intercom_swap.Prelude.{◌≡◌, ◌↔◌, ◌≤◌, ◌+◌, ◌⊎◌, true, false}
use intercom_swap.Js.Number.{nat}
use intercom_swap.Js.Value.{num}
use intercom_swap.Guards.EscrowLamports.{Request, compute_guardrail, to_safe_lamports}
use intercom_swap.Guards.EscrowLamports.Shortfall.{funded, costs, compute_guardrail-shortfall}

abbrev one_vault : Request
one_vault = record {
  payer_lamports = num (nat 1000000);
  fee_lamports = num (nat 5000);
  escrow_rent_lamports = num (nat 2700000);
  token_account_rent_lamports = num (nat 2039280);
  has_escrow_account = true;
  has_vault_account = false;
  has_platform_fee_vault_account = true;
  has_trade_fee_vault_account = true;
  margin_lamports = num (nat 25000);
}

compute_guardrail-shortfall_example :
    (((compute_guardrail (funded 2069280 one_vault)).ok ≡ true) ↔ (costs one_vault ≤ 2069280))
    × ((compute_guardrail one_vault).need_lamports ≡ costs one_vault)
    × ((((compute_guardrail one_vault).ok ≡ true)
          × ((compute_guardrail one_vault).shortfall_lamports ≡ 0))
        ⊎ (((compute_guardrail one_vault).ok ≡ false)
            × (to_safe_lamports (num (nat 1000000))
                  + (compute_guardrail one_vault).shortfall_lamports
                ≡ costs one_vault)))
compute_guardrail-shortfall_example = compute_guardrail-shortfall one_vault 2069280
