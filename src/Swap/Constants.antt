-- ===== src/Swap/Constants.antt =====
-- src/swap/constants.js. The string constants are enumerations, with the text that each stands for.
use intercom_swap.Prelude.{ℕ, String, Option, none, some, ◌≡◌, refl, if◌then◌else◌, str_eq}

abbrev pub swap_protocol_version : ℕ
swap_protocol_version = 1

pub data Pair : Type 0 where
  btc_usdt btc_tao : Pair

abbrev pub pair_text : Pair → String
pair_text btc_usdt = "BTC_LN/USDT_SOL"
pair_text btc_tao = "BTC_LN/TAO_EVM"

pub data Kind : Type 0 where
  svc_announce rfq quote quote_accept swap_invite : Kind
  terms accept cancel status : Kind
  ln_invoice sol_escrow_created tao_htlc_locked ln_paid : Kind
  sol_claimed tao_claimed sol_refunded tao_refunded : Kind

abbrev pub kind_text : Kind → String
kind_text svc_announce = "swap.svc_announce"
kind_text rfq = "swap.rfq"
kind_text quote = "swap.quote"
kind_text quote_accept = "swap.quote_accept"
kind_text swap_invite = "swap.swap_invite"
kind_text terms = "swap.terms"
kind_text accept = "swap.accept"
kind_text cancel = "swap.cancel"
kind_text status = "swap.status"
kind_text ln_invoice = "swap.ln_invoice"
kind_text sol_escrow_created = "swap.sol_escrow_created"
kind_text tao_htlc_locked = "swap.tao_htlc_locked"
kind_text ln_paid = "swap.ln_paid"
kind_text sol_claimed = "swap.sol_claimed"
kind_text tao_claimed = "swap.tao_claimed"
kind_text sol_refunded = "swap.sol_refunded"
kind_text tao_refunded = "swap.tao_refunded"

-- The constant that a text is, as `switch (kind)` finds it.
unfoldable pub kind_of_text : String → Option Kind
kind_of_text s =
    if str_eq s "swap.svc_announce"
    then some svc_announce
    else if str_eq s "swap.rfq"
    then some rfq
    else if str_eq s "swap.quote"
    then some quote
    else if str_eq s "swap.quote_accept"
    then some quote_accept
    else if str_eq s "swap.swap_invite"
    then some swap_invite
    else if str_eq s "swap.terms"
    then some terms
    else if str_eq s "swap.accept"
    then some accept
    else if str_eq s "swap.cancel"
    then some cancel
    else if str_eq s "swap.status"
    then some status
    else if str_eq s "swap.ln_invoice"
    then some ln_invoice
    else if str_eq s "swap.sol_escrow_created"
    then some sol_escrow_created
    else if str_eq s "swap.tao_htlc_locked"
    then some tao_htlc_locked
    else if str_eq s "swap.ln_paid"
    then some ln_paid
    else if str_eq s "swap.sol_claimed"
    then some sol_claimed
    else if str_eq s "swap.tao_claimed"
    then some tao_claimed
    else if str_eq s "swap.sol_refunded"
    then some sol_refunded
    else if str_eq s "swap.tao_refunded"
    then some tao_refunded
    else none

pub data State : Type 0 where
  init terms accepted invoice escrow ln_paid claimed refunded canceled : State

pub State-discrete : Discrete State
State-discrete = hlevel

abbrev pub state_text : State → String
state_text State.init = "init"
state_text State.terms = "terms"
state_text State.accepted = "accepted"
state_text State.invoice = "invoice"
state_text State.escrow = "escrow"
state_text State.ln_paid = "ln_paid"
state_text State.claimed = "claimed"
state_text State.refunded = "refunded"
state_text State.canceled = "canceled"

-- Object.values(STATE).includes(text)
unfoldable pub state_of_text : String → Option State
state_of_text s =
    if str_eq s "init"
    then some State.init
    else if str_eq s "terms"
    then some State.terms
    else if str_eq s "accepted"
    then some State.accepted
    else if str_eq s "invoice"
    then some State.invoice
    else if str_eq s "escrow"
    then some State.escrow
    else if str_eq s "ln_paid"
    then some State.ln_paid
    else if str_eq s "claimed"
    then some State.claimed
    else if str_eq s "refunded"
    then some State.refunded
    else if str_eq s "canceled"
    then some State.canceled
    else none

pub kind_of_text-kind_text : (k : Kind) → kind_of_text (kind_text k) ≡ some k
unfolding kind_of_text
kind_of_text-kind_text svc_announce = refl
kind_of_text-kind_text _ = refl
