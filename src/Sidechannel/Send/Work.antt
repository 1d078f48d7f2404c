-- ===== src/Sidechannel/Send/Work.antt =====
-- The proof of work that _attachPow of features/sidechannel/index.js attaches.
use intercom_swap.Prelude.{
  ℕ, zero, suc, ◌+◌, ◌≤◌, ◌<◌, String, ◌≡◌, refl, sym, true, false, some, Bool-cases, Option-cases,
  inl, inr, arith, str_eq, leb,
}
use intercom_swap.Js.Text.{trim, to_lower}
use intercom_swap.Js.Number.{nat}
use intercom_swap.Js.Value.{Value, Fields, num, str, obj, field, end, ◌!◌, lookup}
use intercom_swap.Protocol.Stringify.{stable_stringify}
use intercom_swap.Protocol.SignedMessage.{with_field}
use intercom_swap.Protocol.SignedMessage.Signed.{lookup-with_field, lookup-other}
use intercom_swap.Sidechannel.Settings.{Settings}
use intercom_swap.Sidechannel.Keys.{Platform}
use intercom_swap.Sidechannel.Rules.{pow_required}
use intercom_swap.Sidechannel.Pow.{work, pow_base, find_nonce, check_pow}
use intercom_swap.Sidechannel.Sign.{sig_payload}
use intercom_swap.Sidechannel.Send.{Sender, attach_pow, attach_sig}

-- What is found does the work.
pub find_nonce-works :
    (settings : Settings) (platform : Platform) (payload : Value) (start fuel : ℕ) {nonce : ℕ}
    → find_nonce settings platform payload start fuel ≡ some nonce
    → settings.pow_difficulty ≤ work platform payload (num (nat nonce))
unfolding find_nonce
find_nonce-works settings platform payload start zero h = cc
find_nonce-works settings platform payload start (suc fuel) {nonce} h =
    elim (Bool-cases (leb settings.pow_difficulty (work platform payload (num (nat start))))) [
      | inl enough ↦ ground (arith, enough)
      | inr little ↦
          find_nonce-works settings platform payload (start + 1) fuel (ground (arith, little))
    ]

-- A field of another name changes nothing of what the work is done on.
pub work-other :
    (platform : Platform) (key : String) (v : Value) (fs : Fields) (nonce : Value)
    → str_eq key "id" ≡ false
    → str_eq key "channel" ≡ false
    → str_eq key "from" ≡ false
    → str_eq key "origin" ≡ false
    → str_eq key "message" ≡ false
    → str_eq key "ts" ≡ false
    → work platform (obj (with_field key v fs)) nonce ≡ work platform (obj fs) nonce
unfolding work pow_base ◌!◌
work-other platform key v fs nonce i c f o m t =
    rw
      (
        lookup-other "id" key v fs i,
        lookup-other "channel" key v fs c,
        lookup-other "from" key v fs f,
        lookup-other "origin" key v fs o,
        lookup-other "message" key v fs m,
        lookup-other "ts" key v fs t,
      )
      refl

pub sig_payload-other :
    (platform : Platform) (key : String) (v : Value) (fs : Fields)
    → str_eq key "id" ≡ false
    → str_eq key "channel" ≡ false
    → str_eq key "from" ≡ false
    → str_eq key "origin" ≡ false
    → str_eq key "message" ≡ false
    → str_eq key "ts" ≡ false
    → sig_payload platform (obj (with_field key v fs)) ≡ sig_payload platform (obj fs)
unfolding sig_payload ◌!◌
sig_payload-other platform key v fs i c f o m t =
    rw
      (
        lookup-other "id" key v fs i,
        lookup-other "channel" key v fs c,
        lookup-other "from" key v fs f,
        lookup-other "origin" key v fs o,
        lookup-other "message" key v fs m,
        lookup-other "ts" key v fs t,
      )
      refl

pub attach_pow-other :
    (settings : Settings) (platform : Platform) (fuel : ℕ) (channel : String) (fs : Fields)
    {out : Fields} (key : String)
    → attach_pow settings platform fuel channel fs ≡ some out
    → str_eq "pow" key ≡ false
    → lookup out key ≡ lookup fs key
unfolding attach_pow
attach_pow-other settings platform fuel channel fs key h n =
    elim (Bool-cases (pow_required settings channel)) [
      | inr free ↦ ground (arith, free)
      | inl needed ↦ elim (Option-cases (find_nonce settings platform (obj fs) 0 fuel)) [
        | inl e ↦ ground (arith, needed, e)
        | inr (nonce, e) ↦ ground (
          arith,
          needed,
          e,
          lookup-other key "pow"
              (obj (
                field "nonce" (num (nat nonce))
                  (field "difficulty" (num (nat settings.pow_difficulty)) end)))
              fs n,
        )
      ]
    ]

pub difficulty-positive :
    (settings : Settings) (channel : String)
    → pow_required settings channel ≡ true
    → 0 < settings.pow_difficulty
unfolding pow_required
difficulty-positive settings channel h = ground arith

-- The proof of work that is attached passes the check of a peer that asks for no more.
pub attach_pow-check_pow :
    (settings peer : Settings) (platform : Platform) (fuel : ℕ) (channel : String) (fs : Fields)
    {out : Fields}
    → pow_required settings channel ≡ true
    → peer.pow_difficulty ≤ settings.pow_difficulty
    → attach_pow settings platform fuel channel fs ≡ some out
    → check_pow peer platform (obj out) channel ≡ true
unfolding attach_pow check_pow ◌!◌
attach_pow-check_pow settings peer platform fuel channel fs {out} needed le h =
    elim (Option-cases (find_nonce settings platform (obj fs) 0 fuel)) [
      | inl e ↦ ground (arith, needed, e)
      | inr (nonce, e) ↦ elim (Bool-cases (pow_required peer channel)) [
        | inr free ↦ ground (arith, free)
        | inl asked ↦
            let pow = obj (
              field "nonce" (num (nat nonce))
                (field "difficulty" (num (nat settings.pow_difficulty)) end)) in
            let is_out : with_field "pow" pow fs ≡ out = ground (arith, needed, e) in
            let found = find_nonce-works settings platform (obj fs) 0 fuel e in
            let worked =
              work-other platform "pow" pow fs (num (nat nonce)) refl refl refl refl refl refl in
            let some_bits = difficulty-positive peer channel asked in
            rw (sym is_out, asked, lookup-with_field "pow" pow fs, worked) (ground arith)
      ]
    ]

pub attach_sig-check_pow :
    (peer : Settings) (platform : Platform) (sender : Sender) (channel : String) (fs : Fields)
    → check_pow peer platform (obj (attach_sig platform sender fs)) channel
      ≡ check_pow peer platform (obj fs) channel
unfolding attach_sig check_pow ◌!◌
attach_sig-check_pow peer platform sender channel fs =
    elim (Option-cases (sender.sign (stable_stringify (sig_payload platform (obj fs))))) [
      | inl e ↦ ground (arith, e)
      | inr (sig, e) ↦ ground (
        arith,
        e,
        lookup-other "pow" "sig" (str (to_lower (trim sig))) fs refl,
        work-other platform "sig" (str (to_lower (trim sig))) fs (lookup fs "pow" ! "nonce") refl
            refl refl refl refl refl,
      )
    ]
