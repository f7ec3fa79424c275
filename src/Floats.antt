-- ===== src/Floats.antt =====
-- `double`: its values and its text form are the platform's, and enter as a parameter. A price is
-- any double that is not subnormal, a NaN included.
use ticket_ist.Prelude.{
  ℕ, ◌≡◌, Bool, Bytes, Lacks, Result, ok, throw, ◌++◌, refl, arith, ltb, codes, invalid_argument,
  if◌then◌else◌,
}
use ticket_ist.Prelude.Int.{pos}
use ticket_ist.Text.Decimal.{
  print_ℤ, print_ℤ-Lacks, starts_digit, read_digits, read_digits-print_all,
}

pub record Floats : Type 1 where
  pub Price : Type 0
  pub zero_price : Price
  -- the conversion of a small whole number
  pub whole : ℕ → Price
  -- `a < b`
  pub less : Price → Price → Bool
  -- `ss << x` at the stream's default precision of six digits
  pub print : Price → Bytes
  -- the same with `std::fixed` and a precision of two
  pub print_fixed : Price → Bytes
  pub stod : Bytes → Result Price

-- What the program relies on: a printed price has no separator of the program's formats in it, and
-- reading a printed price gives one that prints alike, since six digits survive the conversion.
pub record FloatLaws (F : Floats) : Type 0 where
  pub lacks_colon : (x : F.Price) → Lacks b':' (F.print x)
  pub lacks_bar : (x : F.Price) → Lacks b'|' (F.print x)
  pub print_stable :
      (x : F.Price) → (y : F.Price) × (F.stod (F.print x) ≡ ok y) × (F.print y ≡ F.print x)

-- Whole prices, which satisfy the laws.
unfoldable pub read_whole : Bytes → Result ℕ
unfolding starts_digit read_digits
read_whole s =
    if starts_digit s then ok (read_digits 0 s) else throw (invalid_argument (codes "stod"))

abbrev pub whole_prices : Floats
whole_prices = record {
  Price = ℕ;
  zero_price = 0;
  whole = λ n. n;
  less = ltb;
  print = λ x. print_ℤ (pos x);
  print_fixed = λ x. print_ℤ (pos x) ++ codes ".00";
  stod = λ s. read_whole s;
}

read_whole-print : (x : ℕ) → read_whole (print_ℤ (pos x)) ≡ ok x
unfolding read_whole
read_whole-print x = rw ((read_digits-print_all x).0, (read_digits-print_all x).1) refl

pub whole_prices_laws : FloatLaws whole_prices
unfolding read_whole
whole_prices_laws = record {
  lacks_colon = λ x. print_ℤ-Lacks b':' (omega arith) refl (pos x);
  lacks_bar = λ x. print_ℤ-Lacks b'|' (omega arith) refl (pos x);
  print_stable = λ x. (x, read_whole-print x, refl);
}
