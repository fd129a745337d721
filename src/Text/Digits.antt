-- ===== src/Text/Digits.antt =====
-- Numbers in digits (the formats "%02x" and "%d" of bus/buspdo.c).
use virtualdisk.Prelude.{
  ℕ, zero, suc, ◌+◌, ◌-◌, ◌*◌, ◌/◌, ◌%◌, ◌≤◌, ◌<◌, ◌≡◌, refl, ap, ◌∙◌, inl, inr, Bool-cases, List,
  [], ◌∷◌, ◌++◌, arith, ltb, ◌==◌, if◌then◌else◌, length, map, All, All-append, length-append,
}
use virtualdisk.Words.{ulong_mod}
use virtualdisk.Text.{digits, strip, digit_char, print_02x, print_d}

-- The value of digits to the base 16, behind those already read.
abbrev pub value : ℕ → List ℕ → ℕ
value acc [] = acc
value acc (c ∷ cs) = value (acc * 16 + c) cs

-- A character as a digit, and a text as a number.
abbrev pub char_digit : ℕ → ℕ
char_digit c = if ltb c 58 then c - 48 else c - 87

abbrev pub read_hex : List ℕ → ℕ
read_hex text = value 0 (map char_digit text)

abbrev pub IsDigit : ℕ → Type 0
IsDigit c = c < 16

-- How many numbers have `n` digits.
abbrev limit : ℕ → ℕ
limit zero = 1
limit (suc n) = limit n * 16

value-snoc : (acc c : ℕ) (xs : List ℕ) → value acc (xs ++ c ∷ []) ≡ value acc xs * 16 + c
value-snoc acc c [] = refl
value-snoc acc c (x ∷ xs) = value-snoc (acc * 16 + x) c xs

value-digits : (n x : ℕ) → x < limit n → value 0 (digits 16 n x) ≡ x
unfolding digits
value-digits zero x h = omega arith
value-digits (suc n) x h =
    let later = value-digits n (x / 16) (omega arith) in
    let last = value-snoc 0 (x % 16) (digits 16 n (x / 16)) in omega (arith, later, last)

digits-IsDigit : (n x : ℕ) → All IsDigit (digits 16 n x)
unfolding digits
digits-IsDigit zero x = tt
digits-IsDigit (suc n) x =
    All-append IsDigit (digits 16 n (x / 16)) ((x % 16) ∷ []) (digits-IsDigit n (x / 16))
      (omega arith, tt)

length-digits : (base n x : ℕ) → length (digits base n x) ≡ n
unfolding digits
length-digits base zero x = refl
length-digits base (suc n) x = omega (
  arith,
  length-digits base n (x / base),
  length-append (digits base n (x / base)) ((x % base) ∷ []),
)

value-strip : (w : ℕ) (ds : List ℕ) → value 0 (strip w ds) ≡ value 0 ds
unfolding strip
value-strip w [] = refl
value-strip w (c ∷ cs) = elim (Bool-cases (c == 0)) [
  | inl e ↦
      let zero_first : c ≡ 0 = ground arith in
      ground (arith, e, value-strip w cs, ap (λ (n : ℕ). value n cs) zero_first)
  | inr e ↦ ground (arith, e)
]

strip-IsDigit : (w : ℕ) (ds : List ℕ) → All IsDigit ds → All IsDigit (strip w ds)
unfolding strip
strip-IsDigit w [] h = tt
strip-IsDigit w (c ∷ cs) h = ground (arith, h, strip-IsDigit w cs h.1)

length-strip : (w : ℕ) (ds : List ℕ) → length (strip w ds) ≤ length ds
unfolding strip
length-strip w [] = omega arith
length-strip w (c ∷ cs) = ground (arith, length-strip w cs)

char_digit-digit_char : (ds : List ℕ) → All IsDigit ds → map char_digit (map digit_char ds) ≡ ds
char_digit-digit_char [] h = refl
char_digit-digit_char (c ∷ cs) h = ground (arith, h.0, char_digit-digit_char cs h.1)

length-map : (f : ℕ → ℕ) (xs : List ℕ) → length (map f xs) ≡ length xs
length-map f [] = refl
length-map f (x ∷ xs) = ap suc (length-map f xs)

-- In hexadecimal a ULONG has at most eight characters.
pub length-print_hex : (width x : ℕ) → length (map digit_char (strip width (digits 16 8 x))) ≤ 8
length-print_hex width x =
    let ds = digits 16 8 x in
    omega
      (arith, length-map digit_char (strip width ds), length-strip width ds, length-digits 16 8 x)

-- What "%02x" prints of a ULONG is at most eight characters, which read as the number.
pub read_hex-print_02x :
    (x : ℕ) → x < ulong_mod → (read_hex (print_02x x) ≡ x) × (length (print_02x x) ≤ 8)
unfolding print_02x
read_hex-print_02x x h =
    let ds = digits 16 8 x in
    (
      ap (value 0) (char_digit-digit_char (strip 2 ds) (strip-IsDigit 2 ds (digits-IsDigit 8 x)))
          ∙ value-strip 2 ds
          ∙ value-digits 8 x h,
      length-print_hex 2 x,
    )

-- What "%d" prints of a ULONG is at most eleven characters.
pub length-print_d : (x : ℕ) → length (print_d x) ≤ 11
unfolding print_d
length-print_d x =
    let ds = digits 10 10 x in
    let ms = digits 10 10 (ulong_mod - x) in
    ground (
      arith,
      length-map digit_char (strip 1 ds),
      length-strip 1 ds,
      length-digits 10 10 x,
      length-map digit_char (strip 1 ms),
      length-strip 1 ms,
      length-digits 10 10 (ulong_mod - x),
    )
