-- ===== src/Rfq/AppHash.antt =====
-- src/swap/app.js, and the bindings of settlement/providerFactory.js and settlement/defaults.js:
-- the hash by which peers tell that they settle by the same program.
use intercom_swap.Prelude.{String, if◌then◌else◌}
use intercom_swap.Js.Text.{concat, trim, is_empty}
use intercom_swap.Js.Result.{Result, ok, throw, ◌>>=◌}
use intercom_swap.Protocol.SignedMessage.{Crypto}
use intercom_swap.Swap.Constants.{Pair, btc_usdt, btc_tao}

-- The program id that the Solana package has, and the address that the environment or the
-- deployment file of the EVM package has; empty where there is none.
pub record Defaults : Type 0 where
  pub solana_program_id : String
  pub tao_htlc_address : String

-- String(value || fallback).trim()
abbrev or_default : String → String → String
or_default text fallback = trim (if is_empty text then fallback else text)

-- resolveSolanaProgramId and resolveTaoEvmHtlcAddress, for the kind of settlement of a pair
unfoldable pub binding_id : Defaults → Pair → String → String → String
binding_id defaults btc_usdt program_id htlc_address =
    or_default program_id defaults.solana_program_id
binding_id defaults btc_tao program_id htlc_address =
    or_default htlc_address defaults.tao_htlc_address

-- getSettlementBinding(kind, opts).binding_id; a missing one is an exception.
unfoldable pub get_settlement_binding : Defaults → Pair → String → String → Result String
unfolding binding_id
get_settlement_binding defaults pair program_id htlc_address =
    let id = binding_id defaults pair program_id htlc_address in
    if is_empty id then throw else ok id

-- deriveIntercomswapAppHash, with the default tag
unfoldable pub derive_app_hash : Crypto → String → Result String
unfolding trim
derive_app_hash crypto program_id =
    let program = trim program_id in
    if is_empty program
    then throw
    else ok (crypto.sha256_hex (concat "app=intercomswapbtcusdt;solana_program=" program))

-- getExpectedOfferAppHash; deriveIntercomswapAppHashForBinding passes the trimmed id on.
unfoldable pub expected_app_hash : Crypto → Defaults → Pair → String → String → Result String
unfolding get_settlement_binding derive_app_hash
expected_app_hash crypto defaults pair program_id htlc_address =
    get_settlement_binding defaults pair program_id htlc_address >>= λ id.
    derive_app_hash crypto (trim id)
