-- ===== src/Js/Result.antt =====
-- What a validating function gives: `{ ok: true, … }`, `{ ok: false, error }`, or an exception.
use intercom_swap.Prelude.{String, Bool, true, false, ◌≡◌, refl}

pub data Result {ℓ} (A : Type ℓ) : Type ℓ where
  ok : A → Result A
  error : String → Result A
  throw : Result A

infixl 5 ◌>>=◌ ◌>>◌
abbrev pub ◌>>=◌ {ℓ κ} : {A : Type ℓ} {B : Type κ} → Result A → (A → Result B) → Result B
ok a >>= k = k a
error e >>= k = error e
throw >>= k = throw

abbrev pub ◌>>◌ {ℓ} : {B : Type ℓ} → Result (Unit {0}) → Result B → Result B
m >> n = m >>= λ _. n

-- `if (!test) return { ok: false, error };`
abbrev pub require : Bool → String → Result (Unit {0})
require true e = ok tt
require false e = error e

-- `if (test) return { ok: false, error };`
abbrev pub refuse : Bool → String → Result (Unit {0})
refuse true e = error e
refuse false e = ok tt

-- `if (test) { body }`
abbrev pub when : Bool → Result (Unit {0}) → Result (Unit {0})
when true m = m
when false m = ok tt

abbrev pub done : Result (Unit {0})
done = ok tt

module _ {ℓ} {A : Type ℓ} where
  pub ok-injective : {a b : A} → ok a ≡ ok b → a ≡ b
  ok-injective h = cc

  pub bind-ok :
      (m : Result (Unit {0})) (n : Result A) {a : A} → (m >> n) ≡ ok a → (m ≡ ok tt) × (n ≡ ok a)
  bind-ok (ok tt) n h = (refl, h)
  bind-ok (error e) n h = cc
  bind-ok throw n h = cc
