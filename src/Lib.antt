-- ===== src/Lib.antt =====
-- Atomic swaps of Lightning bitcoin against USDT on Solana or TAO on an EVM chain. Two peers trade
-- by signed envelopes over a side channel. Both keep the trade as a record that only
-- applySwapEnvelope changes, and the payer checks invoice and escrow before it pays. Modelled is
-- what decides: the schema of the envelopes, their signatures, the state machine of a trade, the
-- checks before the payment, the decoding of invoices, the arithmetic of fees and refund windows,
-- the admission of messages to a side channel, and the matching of offers.
--
-- Js: the JavaScript values that come from the wire (Js/Value), numbers (Js/Number, Js/Parse),
-- texts (Js/Text), what JSON carries (Js/Json), and results (Js/Result). A returned `{ ok: false,
-- error }` and a thrown Error are `error`, and an exception that the language raises, as BigInt
-- does, is `throw`. `is_readable` tells for which values String() raises one.
-- Protocol: src/util/stableStringify.js (Protocol/Stringify); src/protocol/signedMessage.js and
-- src/swap/hash.js (Protocol/SignedMessage). SHA-256 and the wallet's signatures are parameters.
-- Ln/Bolt11: src/ln/bolt11.js; the packages bech32 and b4a are the parameter `Bech32`.
-- Swap/Constants, Swap/Pairs, Swap/RefundPolicy: src/swap/constants.js, src/swap/pairs.js and
-- src/swap/settlementTerms.js.
-- Swap/Schema: src/swap/schema.js. Fields has the tests of single fields, Discovery and Trading
-- the bodies, Envelope the two entry points validateSwapBody and validateSwapEnvelope.
-- Swap/StateMachine: src/swap/stateMachine.js. Trade is the state; Agreement, Settlement and
-- Closing are the cases of the switch in applySwapEnvelope, and Apply is the function. Steps
-- states, without the order of the checks, what each kind of envelope requires and does; Spec
-- relates the two, and the invariants use Steps. `Follows` is a trade that scripts/rfq-maker.mjs
-- and scripts/rfq-taker.mjs keep: it starts from createInitialTrade, a taken envelope replaces it,
-- and a refused one leaves it alone.
-- Swap/Terms: src/swap/terms.js, and the exchange of TERMS and ACCEPT. Swap/Fees:
-- src/swap/fees.js.
-- Swap/Verify: src/swap/verify.js. Swap/TimelockPolicy: src/swap/timelockPolicy.js.
-- Sidechannel: features/sidechannel/index.js. Settings is what the constructor makes of its
-- configuration, Rules what these ask of a channel, Keys how keys are compared, and Node the state
-- of one peer. Seen, Rate, Invite, Welcome, Pow and Sign are the checks, Receive puts them
-- together as the handler of a message does, Send builds and sends messages, and Channels are the
-- calls by which the application joins and leaves channels. An operation takes the node and the
-- time and gives the node back, with what it sets off as a list of effects.
-- Sidechannel/Capabilities: src/sidechannel/capabilities.js, which signs the invites and the
-- welcomes that Invite and Welcome check.
-- Rfq: src/rfq/offerMatch.js (Rfq/OfferMatch), and the application hash by which offers are told
-- apart, from src/swap/app.js, settlement/providerFactory.js and settlement/defaults.js
-- (Rfq/AppHash). The program id of the Solana package, and the address from the environment or the
-- deployment file, are the parameter `Defaults`; a binding that is missing raises an Error that no
-- caller here catches, and is `throw`.
-- Guards/EscrowLamports: src/prompt/solEscrowGuardrail.js. A number that is not finite or is below
-- 0 counts as 0 there, as in the code, and a fraction is cut.
-- The modules Tests and Example run the code on concrete swaps.
--
-- Bounds. Integers are exact, also where a double rounds, beyond 2^53. A decimal fraction is
-- exact, and String(n) prints no exponent, so numbers of that size or smallness print otherwise
-- than in JavaScript. Texts are sequences of code points; toLowerCase is the one of ASCII, which
-- is what hex digits, addresses and names of pairs need. The loop over the fields of an invoice
-- runs on fuel, one unit for every word of the invoice; a round takes three words at least. The
-- copy that applySwapEnvelope makes of a trade is the trade, since values are not shared; the copy by
-- JSON in the code makes null of an infinite number and leaves out what is undefined. Its check that the trade is an object has no counterpart, since a trade is a record. A key that
-- PAIR_CONFIG inherits from Object.prototype, such as "constructor", counts as an unknown pair.
--
-- String() and Number() of an object with a field `toString` of its own raise a TypeError. Where
-- validation calls String() on a field that it has not validated, the model raises it too; the
-- comparisons after validation read validated fields of the body at hand. Elsewhere (fields of
-- stored evidence of the other settlement kind, verifySwapPrePay on bodies that were not validated,
-- settings, offers, application hashes, side channels) such an object counts as the text
-- "[object Object]" and as the number NaN, and a result then stands for an exception of the code.
--
-- On a side channel the settings that are sizes and times are not negative, tokens of the limiter
-- are counted in thousandths and are exact, and the clock stands still while one call runs. The
-- search for a nonce has no bound in the code; it runs on fuel, and a message for which the fuel
-- is too little is not built. A connection is its number, the key of the peer and the channels
-- that have a session; sessions are opened and closed by others than the modelled calls,
-- removeChannel excepted.
--
-- Not modelled: what asks the chains (verifySwapPrePayOnchain, the clients of Lightning, Solana
-- and the EVM), the price oracle, the receipts store, the prompt tools and their executor, the
-- processes of peers, the opening of side-channel sessions, the scripts and the user interface.
-- These are input and output round the core, or parts of their own.
mod Prelude
pub mod Js
pub mod Protocol
pub mod Ln
pub mod Swap
pub mod Sidechannel
pub mod Rfq
pub mod Guards
