-- ===== src/Edge/Ulid.antt =====
-- `ulid` of events-ingest.py: 26 characters of Crockford's base 32, ten for the clock and sixteen for
-- eighty random bits.
use native.Mathlib.Nat.{pow-suc, div-add-mod, div-div-eq-div-mul}
use hpa_with_bmad.Base.{
  text_length, every_under, every_under_lem, ap, sym, ◌∙◌, ◌≤◌, eqb_iff, ℕ, zero, suc, ◌+◌, ◌*◌,
  ◌/◌, ◌%◌, ◌^◌, ◌<◌, String, code, ◌+++◌, char_at, ◌≡◌, refl, arith, eqb, if◌then◌else◌, true,
}

abbrev pub alphabet : String
alphabet = "0123456789ABCDEFGHJKMNPQRSTVWXYZ"

-- The loops of `ulid`: the rounds left are `n`, so the shift is `n * 5` in the round that has `n`
-- more to come, and `& 0x1F` is the remainder by 32.
base32 : ℕ → ℕ → String
base32 zero value = ""
base32 (suc n) value = String.◌∷◌ (char_at alphabet ((value / 2 ^ (n * 5)) % 32)) (base32 n value)

-- `s[:n]`
take : ℕ → String → String
take zero s = ""
take (suc n) String.[] = ""
take (suc n) (String.◌∷◌ c s) = String.◌∷◌ c (take n s)

unfoldable pub ulid : ℕ → ℕ → String
unfolding base32 take ◌+++◌ char_at
ulid timestamp random = take 26 (base32 10 timestamp +++ base32 16 random)

ulid_runs : ulid 1785000000000 1 ≡ "01KYD4MYG00000000000000001"
unfolding ulid
ulid_runs = refl

-- The number that a character stands for: its place in the alphabet.
index_of : String → ℕ → ℕ
index_of String.[] c = 0
index_of (String.◌∷◌ d s) c = if eqb (code d) c then 0 else suc (index_of s c)

pub decode : ℕ → String → ℕ
decode acc String.[] = acc
decode acc (String.◌∷◌ c s) = decode (acc * 32 + index_of alphabet (code c)) s

alphabet_table : every_under (λ d. eqb (index_of alphabet (code (char_at alphabet d))) d) 32 ≡ true
unfolding every_under index_of char_at
alphabet_table = refl

-- The alphabet has each of its characters once.
index_of-char_at : (d : ℕ) → d < 32 → index_of alphabet (code (char_at alphabet d)) ≡ d
index_of-char_at d h = (eqb_iff _ d).0 (
    every_under_lem (λ d. eqb (index_of alphabet (code (char_at alphabet d))) d) 32 d h
      alphabet_table)

length-base32 : (n value : ℕ) → text_length (base32 n value) ≡ n
unfolding base32
length-base32 zero value = refl
length-base32 (suc n) value = ap suc (length-base32 n value)

pow_step : (n : ℕ) → 2 ^ (suc n * 5) ≡ 2 ^ (n * 5) * 32
pow_step n =
    let e : suc n * 5 ≡ suc (suc (suc (suc (suc (n * 5))))) = omega arith in
    rw e (rw (pow-suc, pow-suc, pow-suc, pow-suc, pow-suc) (omega arith))

digit_arith : (p q b r m : ℕ) → p * (32 * q + b) + r ≡ p * 32 * q + m → m ≡ b * p + r
digit_arith p q b r m h = omega arith

-- A remainder by 32 * p is made of the next digit and the remainder by p.
mod_split : (v p : ℕ) → v % (p * 32) ≡ v / p % 32 * p + v % p
mod_split v p = digit_arith p (v / p / 32) (v / p % 32) (v % p) (v % (p * 32)) (
    rw (div-add-mod (v / p) 32, div-add-mod v p, div-div-eq-div-mul v p 32)
      (sym (div-add-mod v (p * 32))))

shift_digit : (acc b p r : ℕ) → (acc * 32 + b) * p + r ≡ acc * (p * 32) + (b * p + r)
shift_digit acc b p r = omega arith

decode-base32 : (n acc v : ℕ) → decode acc (base32 n v) ≡ acc * 2 ^ (n * 5) + v % 2 ^ (n * 5)
unfolding decode base32
decode-base32 zero acc v = omega arith
decode-base32 (suc n) acc v =
    rw (pow_step n, mod_split v (2 ^ (n * 5)))
      (ap (λ (i : ℕ). decode (acc * 32 + i) (base32 n v))
          (index_of-char_at (v / 2 ^ (n * 5) % 32) (omega arith))
        ∙ (decode-base32 n (acc * 32 + v / 2 ^ (n * 5) % 32) v
            ∙ shift_digit acc (v / 2 ^ (n * 5) % 32) (2 ^ (n * 5)) (v % 2 ^ (n * 5))))

length-append : (x y : String) → text_length (x +++ y) ≡ text_length x + text_length y
unfolding ◌+++◌
length-append String.[] y = omega arith
length-append (String.◌∷◌ c x) y = omega (arith, length-append x y)

-- A slice that is long enough is the whole text.
take_all : (n : ℕ) (s : String) → text_length s ≤ n → take n s ≡ s
unfolding take
take_all zero String.[] h = refl
take_all zero (String.◌∷◌ c s) h = absurd (omega arith)
take_all (suc n) String.[] h = refl
take_all (suc n) (String.◌∷◌ c s) h =
    ap (λ (r : String). String.◌∷◌ c r) (take_all n s (omega arith))

ulid-append : (t r : ℕ) → ulid t r ≡ base32 10 t +++ base32 16 r
unfolding ulid
ulid-append t r = take_all 26 (base32 10 t +++ base32 16 r) (
    omega
      (arith, length-append (base32 10 t) (base32 16 r), length-base32 10 t, length-base32 16 r))

-- A ULID is ten characters that decode to the clock and sixteen that decode to the random bits, for
-- a clock of 48 bits and ten random bytes: neither loses a bit.
pub ulid_fields :
    (t r : ℕ)
    → t < 2 ^ 48
    → r < 2 ^ 80
    → (x y : String) × (ulid t r ≡ x +++ y)
      × (text_length x ≡ 10)
      × (text_length y ≡ 16)
      × (decode 0 x ≡ t)
      × (decode 0 y ≡ r)
ulid_fields t r ht hr = (
  base32 10 t,
  base32 16 r,
  ulid-append t r,
  length-base32 10 t,
  length-base32 16 r,
  omega (arith, decode-base32 10 0 t),
  omega (arith, decode-base32 16 0 r),
)
