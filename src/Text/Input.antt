-- ===== src/Text/Input.antt =====
-- `std::cin`, whose input is a text that ends: `>>` for a text, a character and an `int`, the test
-- of the stream, `clear` and `ignore`. A read that fails sets the flag, and each later one fails.
pub mod Progress
use ticket_ist.Prelude.{
  ℕ, ◌+◌, ◌-◌, ◌≡◌, Bool, true, false, ◌||◌, [], ◌∷◌, arith, ◌==◌, if◌then◌else◌, Bytes, is_empty,
}
use ticket_ist.Prelude.Int.{ℤ, pos, negsuc, leb_ℤ}
use ticket_ist.Text.Decimal.{
  is_digit, is_space, skip_spaces, read_digits, starts_digit, negate, int_max,
}
use ticket_ist.Text.Stream.{Stream}

-- Before each read: a stream that is not good fails, white space is skipped, and the end of the input
-- fails too.
unfoldable pub sentry : Stream → Bool × Stream
unfolding skip_spaces
sentry ss =
    if ss.eof || ss.fail then (false, record ss { fail = true }) else elim (skip_spaces ss.unread) [
      | [] ↦ (false, record { unread = []; eof = true; fail = true })
      | c ∷ s ↦ (true, record { unread = c ∷ s; eof = false; fail = false })
    ]

-- What is left is not the end only if a character stopped the read.
abbrev pub stopped_at : Bool → Bytes → Stream
stopped_at failed rest = record { unread = rest; eof = is_empty rest; fail = failed }

unfoldable pub scan_word : Bytes → Bytes × Bytes
scan_word [] = ([], [])
scan_word (c ∷ s) =
    let (word, rest) = scan_word s in if is_space c then ([], c ∷ s) else (c ∷ word, rest)

-- `std::cin >> text`, which leaves the text alone where nothing can be read
unfoldable pub read_word : Bytes → Stream → Bytes × Stream
unfolding sentry scan_word is_empty
read_word text ss =
    let (good, ss') = sentry ss in
    let (word, rest) = scan_word ss'.unread in
    if good then (word, stopped_at false rest) else (text, ss')

-- `std::cin >> c`
unfoldable pub read_char : ℕ → Stream → ℕ × Stream
unfolding sentry
read_char old ss =
    let (good, ss') = sentry ss in
    elim ss'.unread [
      | [] ↦ (old, ss')
      | c ∷ s ↦ if good then (c, record ss' { unread = s }) else (old, ss')
    ]

unfoldable pub drop_digits : Bytes → Bytes
drop_digits [] = []
drop_digits (c ∷ s) = let rest = drop_digits s in if is_digit c then rest else c ∷ s

-- The digits with their sign: without any the number is 0, and one out of range is the nearest
-- `int`; both count as failed.
unfoldable pub scan_digits : (ℕ → ℤ) → Bytes → ℤ × Bool
unfolding read_digits starts_digit
scan_digits sign s =
    let n = sign (read_digits 0 s) in
    if starts_digit s
    then if leb_ℤ n (pos int_max)
      then if leb_ℤ (negsuc int_max) n then (n, false) else (negsuc int_max, true)
      else (pos int_max, true)
    else (pos 0, true)

unfoldable pub with_rest : Bytes → ℤ × Bool → ℤ × Bool × Bytes
with_rest rest (n, failed) = (n, failed, rest)

unfoldable pub scan_int : Bytes → ℤ × Bool × Bytes
unfolding scan_digits drop_digits with_rest
scan_int [] = (pos 0, true, [])
scan_int (c ∷ s) =
    if c == b'-'
    then with_rest (drop_digits s) (scan_digits negate s)
    else if c == b'+'
    then with_rest (drop_digits s) (scan_digits pos s)
    else with_rest (drop_digits (c ∷ s)) (scan_digits pos (c ∷ s))

-- `std::cin >> n`
unfoldable pub read_int : ℤ → Stream → ℤ × Stream
unfolding sentry scan_int is_empty
read_int old ss =
    let (good, ss') = sentry ss in
    let (n, failed, rest) = scan_int ss'.unread in
    if good then (n, stopped_at failed rest) else (old, ss')

abbrev pub clear : Stream → Stream
clear ss = record ss { eof = false; fail = false }

after_line : Bytes → Bytes
after_line [] = []
after_line (c ∷ s) = let rest = after_line s in if c == 10 then s else rest

lacks_newline : Bytes → Bool
lacks_newline [] = true
lacks_newline (c ∷ s) = let rest = lacks_newline s in if c == 10 then false else rest

-- `std::cin.ignore(max, '\n')` on a stream that is good
unfoldable pub ignore_line : Stream → Stream
unfolding after_line lacks_newline
ignore_line ss = record ss { unread = after_line ss.unread; eof = lacks_newline ss.unread }

-- A stream that failed gives nothing any more.
pub read_word-fail : (text : Bytes) (ss : Stream) → ss.fail ≡ true → read_word text ss ≡ (text, ss)
unfolding read_word sentry
read_word-fail text ss h = ground (arith, h)
