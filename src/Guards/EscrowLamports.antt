-- ===== src/Guards/EscrowLamports.antt =====
-- src/prompt/solEscrowGuardrail.js: whether an account pays for the creation of an escrow.
pub mod Shortfall
use intercom_swap.Prelude.{
  ℕ, ◌+◌, ◌-◌, ◌/◌, ◌^◌, String, Bool, true, false, Option, some, none, List, [], ◌∷◌, ◌++◌, leb,
  if◌then◌else◌,
}
use intercom_swap.Js.Number.{Num, nat, frac}
use intercom_swap.Js.Value.{Value, undefined, num, ◌!◌, to_number, is_reference}

safe : Num → ℕ
safe (nat n) = n
safe (frac false m k) = m / 10 ^ k
safe _ = 0

-- toSafeLamports
unfoldable pub to_safe_lamports : Value → ℕ
unfolding safe
to_safe_lamports v = safe (to_number v)

-- A number, or null for what is none
unfoldable pub lamports_of : Value → Option ℕ
unfolding to_safe_lamports
lamports_of (num n) = some (to_safe_lamports (num n))
lamports_of _ = none

-- parseFeeLamports
unfoldable pub parse_fee_lamports : Value → Option ℕ
unfolding lamports_of
parse_fee_lamports result = elim (lamports_of result) [
  | some fee ↦ some fee
  | none ↦
      if is_reference result
      then elim (lamports_of (result ! "value")) [
        | some fee ↦ some fee
        | none ↦ lamports_of (result ! "value" ! "feeCalculator" ! "lamportsPerSignature")
      ]
      else none
]

-- What is asked. A field that the caller leaves out is `undefined` here; it counts as 0 like its
-- default in the code, but for the margin.
pub record Request : Type 0 where
  pub payer_lamports : Value
  pub fee_lamports : Value
  pub escrow_rent_lamports : Value
  pub token_account_rent_lamports : Value
  pub has_escrow_account : Bool
  pub has_vault_account : Bool
  pub has_platform_fee_vault_account : Bool
  pub has_trade_fee_vault_account : Bool
  pub margin_lamports : Value

pub record Guardrail : Type 0 where
  pub ok : Bool
  pub have_lamports : ℕ
  pub need_lamports : ℕ
  pub shortfall_lamports : ℕ
  pub fee_lamports : ℕ
  pub escrow_rent_lamports : ℕ
  pub token_account_rent_lamports : ℕ
  pub margin_lamports : ℕ
  pub missing_accounts : List String

-- marginLamports = SOL_ESCROW_INIT_MARGIN_LAMPORTS
abbrev pub margin_of : Value → Value
margin_of undefined = num (nat 25000)
margin_of v = v

-- if (!present) { required += rent; missing_accounts.push(name); }
unfoldable pub add_account : Bool → ℕ → String → ℕ × List String → ℕ × List String
add_account true rent name (required, missing) = (required, missing)
add_account false rent name (required, missing) = (required + rent, missing ++ name ∷ [])

-- What the accounts that are missing ask for, on top of fee and margin
unfoldable pub required_lamports : Request → ℕ × List String
unfolding add_account to_safe_lamports
required_lamports r =
    let rent = to_safe_lamports r.token_account_rent_lamports in
    add_account r.has_trade_fee_vault_account rent "trade_fee_vault_ata" (
      add_account r.has_platform_fee_vault_account rent "platform_fee_vault_ata" (
        add_account r.has_vault_account rent "vault_ata" (
          add_account r.has_escrow_account (to_safe_lamports r.escrow_rent_lamports) "escrow_pda" (
            to_safe_lamports r.fee_lamports + to_safe_lamports (margin_of r.margin_lamports),
            [],
          ))))

-- computeEscrowInitLamportsGuardrail
unfoldable pub compute_guardrail : Request → Guardrail
unfolding required_lamports to_safe_lamports
compute_guardrail r =
    let have = to_safe_lamports r.payer_lamports in
    let (required, missing) = required_lamports r in
    record {
      ok = leb required have;
      have_lamports = have;
      need_lamports = required;
      shortfall_lamports = required - have;
      fee_lamports = to_safe_lamports r.fee_lamports;
      escrow_rent_lamports = to_safe_lamports r.escrow_rent_lamports;
      token_account_rent_lamports = to_safe_lamports r.token_account_rent_lamports;
      margin_lamports = to_safe_lamports (margin_of r.margin_lamports);
      missing_accounts = missing;
    }
