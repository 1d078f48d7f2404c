-- ===== src/Js/Integers.antt =====
-- What the tests `isPosInt`, `isUint` and `/^[0-9]+$/` say of a value.
use intercom_swap.Prelude.{ℕ, zero, suc, ◌-◌, ◌*◌, ◌<◌, String, ◌≡◌, refl, true, false, some, arith}
use intercom_swap.Js.Text.{every, is_digit, codes, trim, digits_value}
use intercom_swap.Js.Number.{nat, neg, of_decimal, plus, minus}
use intercom_swap.Js.Value.{Value, num, is_pos_int, is_uint, big_int, big_int_of_text, to_number}

pub is_pos_int-nat : (v : Value) → is_pos_int v ≡ true → (n : ℕ) × (v ≡ num (nat n)) × (0 < n)
unfolding is_pos_int
is_pos_int-nat (num (nat n)) h = (n, refl, ground arith)
is_pos_int-nat (num (neg n)) h = cc
is_pos_int-nat (num _) h = cc
is_pos_int-nat _ h = cc

pub is_uint-nat : (v : Value) → is_uint v ≡ true → (n : ℕ) × (v ≡ num (nat n))
unfolding is_uint
is_uint-nat (num (nat n)) h = (n, refl)
is_uint-nat (num (neg n)) h = cc
is_uint-nat (num _) h = cc
is_uint-nat _ h = cc

pub to_number-nat : (n : ℕ) → to_number (num (nat n)) ≡ nat n
unfolding to_number
to_number-nat n = refl

pub big_int-nat : (n : ℕ) → big_int (num (nat n)) ≡ some (nat n)
unfolding big_int
big_int-nat n = refl

-- BigInt reads a run of digits, with any white space round it.
pub big_int_of_text-digits :
    (s : String)
    → every is_digit (codes (trim s)) ≡ true
    → big_int_of_text s ≡ some (nat (digits_value 0 (codes (trim s))))
unfolding big_int_of_text
big_int_of_text-digits s h = rw h

-- A numerator over one is the number.
pub of_decimal-whole : (m : ℕ) → of_decimal false m 0 ≡ nat m
unfolding of_decimal
of_decimal-whole m = ground arith

-- The difference of two numbers, the larger first.
pub plus-minus : (x n : ℕ) → n < x → plus (nat x) (minus (nat n)) ≡ nat (x - n)
unfolding plus minus
plus-minus x zero h = ground arith
plus-minus x (suc n) h =
    let one : suc n - 1 ≡ n = omega arith in
    ground (arith, one, of_decimal-whole (x * 1 - suc (suc n - 1) * 1))
