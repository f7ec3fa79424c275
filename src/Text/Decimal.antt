-- ===== src/Text/Decimal.antt =====
-- Decimal numbers: `ss << n` and `std::to_string(n)` for `int` and `long`, and `std::stoi` and
-- `std::stol` of libstdc++, which skip white space, read a sign and digits, and stop there.
use ticket_ist.Prelude.{
  ℕ, zero, suc, ◌+◌, ◌-◌, ◌*◌, ◌/◌, ◌%◌, ◌^◌, ◌<◌, ◌≡◌, refl, ◌≢◌, Bool, true, false, ◌&&◌, ◌||◌,
  Option, none, some, [], ◌∷◌, ◌++◌, append_assoc, append-nil, arith, ltb, leb, ◌==◌, if◌then◌else◌,
  Bool-cases, inl, inr, Bytes, codes, All, All-append, Lacks, Result, ok, throw, invalid_argument,
  out_of_range,
}
use mathlib.Core.List.{concat-ne-nil}
use ticket_ist.Prelude.Int.{ℤ, pos, negsuc, ◌≤ℤ◌, leb_ℤ}

-- The digits of `n`. One digit is written for each unit of fuel, and `suc n` units are enough.
print_digits : ℕ → ℕ → Bytes
print_digits zero n = []
print_digits (suc fuel) n =
    let rest = print_digits fuel (n / 10) in
    let tail = rest ++ (b'0' + n % 10) ∷ [] in if ltb n 10 then (b'0' + n) ∷ [] else tail

unfoldable pub print_ℕ : ℕ → Bytes
unfolding print_digits
print_ℕ n = print_digits (suc n) n

unfoldable pub print_ℤ : ℤ → Bytes
unfolding print_ℕ
print_ℤ (pos n) = print_ℕ n
print_ℤ (negsuc n) = b'-' ∷ print_ℕ (suc n)

abbrev pub is_digit : ℕ → Bool
is_digit c = leb b'0' c && leb c b'9'

-- `isspace` in the "C" locale
abbrev pub is_space : ℕ → Bool
is_space c = c == 32 || (leb 9 c && leb c 13)

unfoldable pub skip_spaces : Bytes → Bytes
skip_spaces [] = []
skip_spaces (c ∷ s) = let rest = skip_spaces s in if is_space c then rest else c ∷ s

-- Digits are read as long as there are any; `n` is the number so far.
unfoldable pub read_digits : ℕ → Bytes → ℕ
read_digits n [] = n
read_digits n (c ∷ s) =
    let rest = read_digits (n * 10 + (c - b'0')) s in if is_digit c then rest else n

unfoldable pub starts_digit : Bytes → Bool
starts_digit [] = false
starts_digit (c ∷ s) = is_digit c

abbrev pub negate : ℕ → ℤ
negate zero = pos 0
negate (suc n) = negsuc n

-- What `strtol` converts in base 10, before the range is tested; `none` is "no conversion".
read_unsigned : (ℕ → ℤ) → Bytes → Option ℤ
unfolding read_digits starts_digit
read_unsigned sign s = if starts_digit s then some (sign (read_digits 0 s)) else none

read_signed : Bytes → Option ℤ
unfolding read_unsigned
read_signed [] = none
read_signed (c ∷ s) =
    if c == b'-'
    then read_unsigned negate s
    else if c == b'+'
    then read_unsigned pos s
    else read_unsigned pos (c ∷ s)

in_range : ℤ → ℤ → Bytes → Option ℤ → Result ℤ
in_range lo hi name none = throw (invalid_argument name)
in_range lo hi name (some n) = if leb_ℤ lo n && leb_ℤ n hi then ok n else throw (out_of_range name)

abbrev pub int_max : ℕ
int_max = 2 ^ 31 - 1

abbrev pub long_max : ℕ
long_max = 2 ^ 63 - 1

unfoldable pub stoi : Bytes → Result ℤ
unfolding in_range read_signed skip_spaces
stoi s = in_range (negsuc int_max) (pos int_max) (codes "stoi") (read_signed (skip_spaces s))

unfoldable pub stol : Bytes → Result ℤ
unfolding in_range read_signed skip_spaces
stol s = in_range (negsuc long_max) (pos long_max) (codes "stol") (read_signed (skip_spaces s))

-- The range of `int`, and of `long`.
abbrev pub IsInt : ℤ → Type 0
IsInt n = (negsuc int_max ≤ℤ n) × (n ≤ℤ pos int_max)

abbrev pub IsLong : ℤ → Type 0
IsLong n = (negsuc long_max ≤ℤ n) × (n ≤ℤ pos long_max)

-- What may follow a number without being read as part of it.
abbrev pub EndsNumber : Bytes → Type 0
EndsNumber s = starts_digit s ≡ false

print_digits-All :
    (P : ℕ → Type 0) (digit : (d : ℕ) → d < 10 → P (b'0' + d)) (fuel n : ℕ)
    → All P (print_digits fuel n)
unfolding print_digits
print_digits-All P digit zero n = tt
print_digits-All P digit (suc fuel) n = elim (Bool-cases (ltb n 10)) [
  | inl small ↦ rw small (digit n (ground arith), tt)
  | inr large ↦
      rw large (
        All-append P _ _ (print_digits-All P digit fuel (n / 10))
          (digit (n % 10) (omega arith), tt))
]

-- A printed number holds digits only, and for a negative one a minus sign.
pub print_ℤ-Lacks : (b : ℕ) → b ≢ b'-' → is_digit b ≡ false → (n : ℤ) → Lacks b (print_ℤ n)
unfolding print_ℤ
print_ℤ-Lacks b hm hd (pos n) = print_digits-All _ (λ d h. ground arith) (suc n) n
print_ℤ-Lacks b hm hd (negsuc n) =
    ((ground arith), print_digits-All _ (λ d h. ground arith) (suc (suc n)) (suc n))

read_digits-print :
    (fuel n : ℕ) (rest : Bytes)
    → n < fuel
    → read_digits 0 (print_digits fuel n ++ rest) ≡ read_digits n rest
unfolding print_digits read_digits
read_digits-print zero n rest h = absurd (omega arith)
read_digits-print (suc fuel) n rest h = elim (Bool-cases (ltb n 10)) [
  | inl small ↦ rw small (ground arith)
  | inr large ↦
      rw (large, append_assoc)
        (rw (read_digits-print fuel (n / 10) _ (ground arith)) (ground arith))
]

starts_digit-print :
    (fuel n : ℕ) (rest : Bytes) → n < fuel → starts_digit (print_digits fuel n ++ rest) ≡ true
unfolding print_digits starts_digit
starts_digit-print zero n rest h = absurd (omega arith)
starts_digit-print (suc fuel) n rest h = elim (Bool-cases (ltb n 10)) [
  | inl small ↦ rw small (ground arith)
  | inr large ↦ rw (large, append_assoc) (starts_digit-print fuel (n / 10) _ (ground arith))
]

skip_spaces-digit : (s : Bytes) → starts_digit s ≡ true → skip_spaces s ≡ s
unfolding skip_spaces starts_digit
skip_spaces-digit [] h = refl
skip_spaces-digit (c ∷ s) h = ground arith

read_signed-digit :
    (s : Bytes) → starts_digit s ≡ true → read_signed s ≡ some (pos (read_digits 0 s))
unfolding read_signed starts_digit
read_signed-digit [] h = cc
read_signed-digit (c ∷ s) h = ground arith

read_digits-end : (n : ℕ) (s : Bytes) → EndsNumber s → read_digits n s ≡ n
unfolding read_digits starts_digit
read_digits-end n [] h = refl
read_digits-end n (c ∷ s) h = ground arith

-- A printed number is converted back, up to what follows it.
read_signed-print :
    (n : ℤ) (rest : Bytes)
    → EndsNumber rest
    → read_signed (skip_spaces (print_ℤ n ++ rest)) ≡ some n
unfolding print_ℤ
read_signed-print (pos n) rest h =
    let digits = starts_digit-print (suc n) n rest (omega arith) in
    rw (skip_spaces-digit _ digits, read_signed-digit _ digits)
      (rw (read_digits-print (suc n) n rest (omega arith), read_digits-end n rest h) refl)
read_signed-print (negsuc n) rest h =
    let digits = starts_digit-print (suc (suc n)) (suc n) rest (omega arith) in
    let same = read_digits-print (suc (suc n)) (suc n) rest (omega arith) in
    unfold read_signed skip_spaces in ground (arith, digits, same, read_digits-end (suc n) rest h)

-- `std::stoi` and `std::stol` undo the decimal output of every value of their type.
pub stoi-print :
    (n : ℤ) (rest : Bytes) → IsInt n → EndsNumber rest → stoi (print_ℤ n ++ rest) ≡ ok n
unfolding stoi
stoi-print n rest fits h = rw (read_signed-print n rest h) (ground arith)

pub stol-print :
    (n : ℤ) (rest : Bytes) → IsLong n → EndsNumber rest → stol (print_ℤ n ++ rest) ≡ ok n
unfolding stol
stol-print n rest fits h = rw (read_signed-print n rest h) (ground arith)

pub stoi-print_all : (n : ℤ) → IsInt n → stoi (print_ℤ n) ≡ ok n
unfolding starts_digit
stoi-print_all n fits = rw (← append-nil (print_ℤ n)) (stoi-print n [] fits refl)

pub stol-print_all : (n : ℤ) → IsLong n → stol (print_ℤ n) ≡ ok n
unfolding starts_digit
stol-print_all n fits = rw (← append-nil (print_ℤ n)) (stol-print n [] fits refl)

pub print_ℤ-ne-nil : (n : ℤ) → print_ℤ n ≢ []
unfolding print_ℤ print_digits
print_ℤ-ne-nil (pos n) = elim (Bool-cases (ltb n 10)) [
  | inl small ↦ rw small (cc)
  | inr large ↦ rw large (concat-ne-nil _ _)
]
print_ℤ-ne-nil (negsuc n) = cc

-- The digits of a number are read back as that number.
pub read_digits-print_all :
    (n : ℕ) → (starts_digit (print_ℤ (pos n)) ≡ true) × (read_digits 0 (print_ℤ (pos n)) ≡ n)
unfolding print_ℤ read_digits
read_digits-print_all n =
    rw (← append-nil (print_ℕ n))
      (starts_digit-print (suc n) n [] (omega arith), read_digits-print (suc n) n [] (omega arith))
