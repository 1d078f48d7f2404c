-- ===== src/Ln/Bolt11/Words.antt =====
-- Parts of the words of an invoice (src/ln/bolt11.js): `slice` as `take` and `drop`.
use mathlib.Core.List.{append_assoc}
use intercom_swap.Prelude.{
  ℕ, zero, suc, ◌+◌, ◌-◌, ◌≤◌, ◌≡◌, refl, List, [], ◌∷◌, ◌++◌, arith, ap, sym, ◌∙◌,
}
use intercom_swap.Ln.Bolt11.{take, drop, length}

pub concat-take-drop : (n : ℕ) (ws : List ℕ) → take n ws ++ drop n ws ≡ ws
unfolding take drop
concat-take-drop zero ws = refl
concat-take-drop (suc n) [] = refl
concat-take-drop (suc n) (w ∷ ws) = rw (concat-take-drop n ws) refl

pub length-take : (n : ℕ) (ws : List ℕ) → n ≤ length ws → length (take n ws) ≡ n
unfolding take length
length-take zero ws h = refl
length-take (suc n) [] h = absurd (omega arith)
length-take (suc n) (w ∷ ws) h = omega (arith, length-take n ws (omega arith))

pub length-drop : (n : ℕ) (ws : List ℕ) → length (drop n ws) ≤ length ws
unfolding length drop
length-drop zero ws = omega arith
length-drop (suc n) [] = omega arith
length-drop (suc n) (w ∷ ws) = omega (arith, length-drop n ws)

pub take-concat : (xs ys : List ℕ) → take (length xs) (xs ++ ys) ≡ xs
unfolding take length
take-concat [] ys = refl
take-concat (x ∷ xs) ys = rw (take-concat xs ys) refl

pub drop-concat : (xs ys : List ℕ) → drop (length xs) (xs ++ ys) ≡ ys
unfolding drop length
drop-concat [] ys = refl
drop-concat (x ∷ xs) ys = drop-concat xs ys

pub length-concat : (xs ys : List ℕ) → length (xs ++ ys) ≡ length xs + length ys
unfolding length
length-concat [] ys = omega arith
length-concat (x ∷ xs) ys = omega (arith, length-concat xs ys)

pub take-take : (m n : ℕ) (ws : List ℕ) → m ≤ n → take m (take n ws) ≡ take m ws
unfolding take
take-take zero n ws h = refl
take-take (suc m) zero ws h = absurd (omega arith)
take-take (suc m) (suc n) [] h = refl
take-take (suc m) (suc n) (w ∷ ws) h = rw (take-take m n ws (omega arith)) refl

-- The exact length of what is left.
pub length-drop_exact : (n : ℕ) (ws : List ℕ) → n ≤ length ws → length (drop n ws) + n ≡ length ws
unfolding length drop
length-drop_exact zero ws h = omega arith
length-drop_exact (suc n) [] h = absurd (omega arith)
length-drop_exact (suc n) (w ∷ ws) h = omega (arith, length-drop_exact n ws (omega arith))

-- The first and the rest of two parts, by the length of the first.
pub take-first : (n : ℕ) (xs ys : List ℕ) → length xs ≡ n → take n (xs ++ ys) ≡ xs
take-first n xs ys e = ap (λ k. take k (xs ++ ys)) (sym e) ∙ take-concat xs ys

pub drop-first : (n : ℕ) (xs ys : List ℕ) → length xs ≡ n → drop n (xs ++ ys) ≡ ys
drop-first n xs ys e = ap (λ k. drop k (xs ++ ys)) (sym e) ∙ drop-concat xs ys

pub take-front :
    (n : ℕ) (first between last : List ℕ)
    → length first ≡ n
    → take n (first ++ between ++ last) ≡ first
take-front n first between last e =
    ap (λ l. take n l) (append_assoc first between last) ∙ take-first n first (between ++ last) e

-- The words between the first n and the last m.
pub middle :
    (n m : ℕ) (first between last : List ℕ)
    → length first ≡ n
    → length last ≡ m
    → drop n (take (length (first ++ between ++ last) - m) (first ++ between ++ last)) ≡ between
middle n m first between last e g =
    let shorter : length (first ++ between ++ last) - m ≡ length (first ++ between) =
      omega (arith, length-concat (first ++ between) last) in
    rw shorter (rw (take-concat (first ++ between) last) (drop-first n first between e))

pub middle_parts :
    (n m : ℕ) (ws : List ℕ)
    → n + m ≤ length ws
    → take n ws ++ drop n (take (length ws - m) ws) ++ drop (length ws - m) ws ≡ ws
middle_parts n m ws h =
    let k = length ws - m in
    let front : take n ws ++ drop n (take k ws) ≡ take k ws =
      ap (λ l. l ++ drop n (take k ws)) (sym (take-take n k ws (omega arith)))
      ∙ concat-take-drop n (take k ws) in
    ap (λ l. l ++ drop k ws) front ∙ concat-take-drop k ws
