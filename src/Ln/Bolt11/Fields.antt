-- ===== src/Ln/Bolt11/Fields.antt =====
-- The tagged fields of an invoice (src/ln/bolt11.js): what the loop of decodeBolt11 reads, by the
-- layout of the words.
use Prim.Native.Char.{code}
use Prim.Native.String.{char_at}
use intercom_swap.Prelude.{
  ℕ, zero, suc, ◌+◌, ◌*◌, ◌≤◌, ◌<◌, ◌≡◌, ◌≢◌, refl, Bool, true, not, ◌&&◌, List, [], ◌∷◌, ◌++◌,
  ◌==◌, arith, some, Bool-cases, inl, inr, if◌then◌else◌,
}
use intercom_swap.Js.Result.{ok, ok-injective}
use intercom_swap.Ln.Bolt11.{
  charset, Bech32, Tags, take, drop, length, words_value, read_tag, read_tags, max_safe_integer,
}
use intercom_swap.Ln.Bolt11.Words.{
  concat-take-drop, length-take, length-drop, length-concat, take-first, drop-first,
}

-- One field as it stands in the words: its tag, the two words of its length, and its data.
pub record Field : Type 0 where
  pub tag : ℕ
  pub high : ℕ
  pub low : ℕ
  pub content : List ℕ

pub written : List Field → List ℕ
written [] = []
written (f ∷ fs) = f.tag ∷ f.high ∷ f.low ∷ (f.content ++ written fs)

-- What the fields set, in their order, from the tags before to the tags after: the field 1 (`p`) is
-- the payment hash, the field 6 (`x`) the expiry, and any other says nothing. Each has as many words
-- as its length tells.
pub data Sets (bech32 : Bech32) : List Field → Tags → Tags → Type 0 where
  none : {t : Tags} → Sets bech32 [] t t
  hash :
      {f : Field} {fs : List Field} {t u : Tags} (bytes : List ℕ)
      → f.tag ≡ 1
      → length f.content ≡ f.high * 32 + f.low
      → bech32.from_words f.content ≡ ok bytes
      → Sets bech32 fs (record t { payment_hash = some (bech32.to_hex bytes) }) u
      → Sets bech32 (f ∷ fs) t u
  expiry :
      {f : Field} {fs : List Field} {t u : Tags}
      → f.tag ≡ 6
      → length f.content ≡ f.high * 32 + f.low
      → words_value 0 f.content ≤ max_safe_integer
      → Sets bech32 fs (record t { expiry = words_value 0 f.content }) u
      → Sets bech32 (f ∷ fs) t u
  other :
      {f : Field} {fs : List Field} {t u : Tags}
      → f.tag < 32
      → f.tag ≢ 1
      → f.tag ≢ 6
      → length f.content ≡ f.high * 32 + f.low
      → Sets bech32 fs t u
      → Sets bech32 (f ∷ fs) t u

all_below : (ℕ → Bool) → ℕ → Bool
all_below p zero = true
all_below p (suc n) = p n && all_below p n

all_below-true : (p : ℕ → Bool) (n k : ℕ) → all_below p n ≡ true → k < n → p k ≡ true
unfolding all_below
all_below-true p zero k h l = absurd (omega arith)
all_below-true p (suc n) k h l = elim (Bool-cases (k == n)) [
  | inl e ↦ ground arith
  | inr e ↦ ground (arith, all_below-true p n k)
]

-- The letter of a word is p just for 1, and x just for 6.
named_tag : ℕ → Bool
named_tag k =
    let letter = code (char_at charset k) in
    (if letter == b'p' then k == 1 else not (k == 1))
    && (if letter == b'x' then k == 6 else not (k == 6))

named_tag-true : (k : ℕ) → k < 32 → named_tag k ≡ true
unfolding named_tag all_below
named_tag-true k l = all_below-true named_tag 32 k refl l

letter-p : (k : ℕ) → k < 32 → (code (char_at charset k) == b'p') ≡ (k == 1)
unfolding named_tag
letter-p k l = ground (arith, named_tag-true k l)

letter-x : (k : ℕ) → k < 32 → (code (char_at charset k) == b'x') ≡ (k == 6)
unfolding named_tag
letter-x k l = ground (arith, named_tag-true k l)

module _ (bech32 : Bech32) where
  read_tag-Sets :
      (f : Field) (fs : List Field) (t s u : Tags)
      → f.tag < 32
      → length f.content ≡ f.high * 32 + f.low
      → read_tag bech32 (char_at charset f.tag) f.content t ≡ ok s
      → Sets bech32 fs s u
      → Sets bech32 (f ∷ fs) t u
  unfolding read_tag
  read_tag-Sets f fs t s u l whole h later =
      let p = letter-p f.tag l in
      let x = letter-x f.tag l in
      elim (Bool-cases (f.tag == 1)) [
        | inl one ↦
            let (bytes, read, same) : (bytes : List ℕ) × (bech32.from_words f.content ≡ ok bytes)
                × (record t { payment_hash = some (bech32.to_hex bytes) } ≡ s) =
              ground (arith, p, one) in
            hash bytes (ground arith) whole read (rw same later)
        | inr not_one ↦ elim (Bool-cases (f.tag == 6)) [
          | inl six ↦
              let (small, same) : (words_value 0 f.content ≤ max_safe_integer)
                  × (record t { expiry = words_value 0 f.content } ≡ s) =
                ground (arith, p, x, six, not_one) in
              expiry (ground arith) whole small (rw same later)
          | inr not_six ↦
              let same : t ≡ s = ground (arith, p, x, not_six, not_one) in
              other l (ground arith) (ground arith) whole (rw same later)
        ]
      ]

  Sets-read_tag :
      (f : Field) (fs : List Field) (t u : Tags)
      → Sets bech32 (f ∷ fs) t u
      → (f.tag < 32)
        × (length f.content ≡ f.high * 32 + f.low)
        × (s : Tags) × (read_tag bech32 (char_at charset f.tag) f.content t ≡ ok s)
        × Sets bech32 fs s u
  unfolding read_tag
  Sets-read_tag f fs t u (hash bytes e whole b later) =
      (omega arith, whole, _, ground (arith, letter-p f.tag (omega arith)), later)
  Sets-read_tag f fs t u (expiry e whole b later) = (
    omega arith,
    whole,
    _,
    ground (arith, letter-p f.tag (omega arith), letter-x f.tag (omega arith)),
    later,
  )
  Sets-read_tag f fs t u (other l p x whole later) =
      (l, whole, _, ground (arith, letter-p f.tag l, letter-x f.tag l), later)

  -- One round of the loop that goes on to a result.
  rounds :
      (n tag high low : ℕ) (rest : List ℕ) (t u : Tags)
      → read_tags (suc n) bech32 (tag ∷ high ∷ low ∷ rest) t ≡ ok u
      → (tag < 32)
        × (high * 32 + low ≤ length rest)
        × (s : Tags) × (read_tag bech32 (char_at charset tag) (take (high * 32 + low) rest) t
            ≡ ok s)
        × (read_tags n bech32 (drop (high * 32 + low) rest) s ≡ ok u)
  unfolding read_tags
  rounds n tag high low rest t u h = ground arith

  pub read_tags-Sets :
      (n : ℕ) (words : List ℕ) (t u : Tags)
      → length words ≤ n
      → read_tags n bech32 words t ≡ ok u
      → (fs : List Field) × (written fs ≡ words) × Sets bech32 fs t u
  unfolding read_tags length written
  read_tags-Sets zero [] t u l h = ([], refl, rw (ok-injective h) none)
  read_tags-Sets zero (w ∷ ws) t u l h = absurd (omega arith)
  read_tags-Sets (suc n) [] t u l h = ([], refl, rw (ok-injective h) none)
  read_tags-Sets (suc n) (w ∷ []) t u l h = cc
  read_tags-Sets (suc n) (w ∷ v ∷ []) t u l h = cc
  read_tags-Sets (suc n) (tag ∷ high ∷ low ∷ rest) t u l h =
      let size = high * 32 + low in
      let (named, whole, s, first, later) = rounds n tag high low rest t u h in
      let (fs, same, sets) =
        read_tags-Sets n (drop size rest) s u (omega (arith, length-drop size rest)) later in
      let f : Field = record { tag = tag; high = high; low = low; content = take size rest } in
      (
        f ∷ fs,
        rw same (rw (concat-take-drop size rest) refl),
        read_tag-Sets f fs t s u named (length-take size rest whole) first sets,
      )

  pub Sets-read_tags :
      (n : ℕ) (fs : List Field) (t u : Tags)
      → length (written fs) ≤ n
      → Sets bech32 fs t u
      → read_tags n bech32 (written fs) t ≡ ok u
  unfolding read_tags length written
  Sets-read_tags zero [] t u l none = refl
  Sets-read_tags (suc n) [] t u l none = refl
  Sets-read_tags zero (f ∷ fs) t u l sets = absurd (omega arith)
  Sets-read_tags (suc n) (f ∷ fs) t u l sets =
      let (named, whole, s, first, later) = Sets-read_tag f fs t u sets in
      let goes_on =
        Sets-read_tags n fs s u (omega (arith, length-concat f.content (written fs))) later in
      let taken = take-first (f.high * 32 + f.low) f.content (written fs) whole in
      let dropped = drop-first (f.high * 32 + f.low) f.content (written fs) whole in
      let long : f.high * 32 + f.low ≤ length (f.content ++ written fs) =
        omega (arith, length-concat f.content (written fs)) in
      rw taken (rw dropped (rw first (ground (arith, named, long, goes_on))))
