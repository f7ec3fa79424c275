-- ===== src/Text/Input/Progress.antt =====
-- Each read takes at least one byte of the input, or fails for good.
use ticket_ist.Prelude.{
  ℕ, ◌≤◌, ◌<◌, ◌≡◌, refl, ◌⊎◌, inl, inr, Bool, true, false, ◌||◌, [], ◌∷◌, arith, Bytes, length,
  is_empty, Bool-cases,
}
use ticket_ist.Prelude.Int.{ℤ}
use ticket_ist.Text.Decimal.{is_space, skip_spaces, starts_digit}
use ticket_ist.Text.Stream.{Stream}
use ticket_ist.Text.Input.{
  sentry, scan_word, read_word, read_char, drop_digits, scan_digits, scan_int, with_rest, read_int,
}

-- The stream failed, or has less to read.
abbrev pub IsShorter : Stream → Stream → Type 0
IsShorter ss after = (after.fail ≡ true) ⊎ (length after.unread < length ss.unread)

-- A stream that failed stays so, and no read puts anything back.
abbrev pub IsSpent : Stream → Stream → Type 0
IsSpent ss after = (ss.fail ≡ true → after.fail ≡ true) × (length after.unread ≤ length ss.unread)

StartsWord : Bytes → Type 0
StartsWord [] = Unit
StartsWord (c ∷ s) = is_space c ≡ false

skip_spaces_lem : (s : Bytes) → (length (skip_spaces s) ≤ length s) × StartsWord (skip_spaces s)
unfolding skip_spaces StartsWord
skip_spaces_lem [] = (omega arith, tt)
skip_spaces_lem (c ∷ s) =
    let (shorter, starts) = skip_spaces_lem s in ground (arith, shorter, starts)

scan_word_rest : (s : Bytes) → length (scan_word s).1 ≤ length s
unfolding scan_word
scan_word_rest [] = omega arith
scan_word_rest (c ∷ s) = ground (arith, scan_word_rest s)

scan_word_first :
    (c : ℕ) (s : Bytes)
    → is_space c ≡ false
    → (is_empty (scan_word (c ∷ s)).0 ≡ false) × (length (scan_word (c ∷ s)).1 < length (c ∷ s))
unfolding scan_word is_empty
scan_word_first c s h = ground (arith, h, scan_word_rest s)

drop_digits_rest : (s : Bytes) → length (drop_digits s) ≤ length s
unfolding drop_digits
drop_digits_rest [] = omega arith
drop_digits_rest (c ∷ s) = ground (arith, drop_digits_rest s)

-- What stands before a read: it fails, or the input goes on with a byte that is no white space.
abbrev pub Fails : Stream → Bool × Stream → Type 0
Fails ss (good, after) =
    (good ≡ false) × (after.fail ≡ true) × (length after.unread ≤ length ss.unread)

abbrev pub Starts : Stream → ℕ → Bytes → Type 0
Starts ss c s =
    (sentry ss ≡ (true, record { unread = c ∷ s; eof = false; fail = false }))
    × (ss.fail ≡ false)
    × (is_space c ≡ false)
    × (length (c ∷ s) ≤ length ss.unread)

List-cases : (s : Bytes) → (s ≡ []) ⊎ ((c : ℕ) × (t : Bytes) × (s ≡ c ∷ t))
List-cases [] = inl refl
List-cases (c ∷ t) = inr (c, t, refl)

pub sentry-cases : (ss : Stream) → Fails ss (sentry ss) ⊎ ((c : ℕ) × (s : Bytes) × Starts ss c s)
unfolding sentry StartsWord
sentry-cases ss = elim (Bool-cases (ss.eof || ss.fail)) [
  | inl e ↦ inl (ground (arith, e))
  | inr e ↦ elim (List-cases (skip_spaces ss.unread)) [
    | inl none_left ↦ inl (ground (arith, e, none_left))
    | inr (c, s, left) ↦ inr (c, s, ground (arith, e, left, skip_spaces_lem ss.unread))
  ]
]

-- A word is read, which is not empty, or the read fails and leaves the text alone.
pub read_word-cases :
    (text : Bytes) (ss : Stream)
    → (((read_word text ss).0 ≡ text)
        × ((read_word text ss).1.fail ≡ true)
        × ((sentry ss).0 ≡ false))
      ⊎ ((is_empty (read_word text ss).0 ≡ false) × ((sentry ss).0 ≡ true))
unfolding read_word
read_word-cases text ss = elim (sentry-cases ss) [
  | inl (bad, fails, shorter) ↦ inl (ground (arith, bad, fails))
  | inr (c, s, (starts, good, word, shorter)) ↦
      inr (ground (arith, starts, scan_word_first c s word))
]

pub read_word-IsShorter : (text : Bytes) (ss : Stream) → IsShorter ss (read_word text ss).1
unfolding read_word
read_word-IsShorter text ss = elim (sentry-cases ss) [
  | inl (bad, fails, shorter) ↦ inl (ground (arith, bad, fails))
  | inr (c, s, (starts, good, word, shorter)) ↦
      inr (ground (arith, starts, shorter, scan_word_first c s word))
]

pub read_word-IsSpent : (text : Bytes) (ss : Stream) → IsSpent ss (read_word text ss).1
unfolding read_word
read_word-IsSpent text ss = elim (sentry-cases ss) [
  | inl (bad, fails, shorter) ↦ ground (arith, bad, fails, shorter)
  | inr (c, s, (starts, good, word, shorter)) ↦
      ground (arith, starts, good, shorter, scan_word_first c s word)
]

pub read_char-IsSpent : (old : ℕ) (ss : Stream) → IsSpent ss (read_char old ss).1
unfolding read_char
read_char-IsSpent old ss = elim (sentry-cases ss) [
  | inl (bad, fails, shorter) ↦ ground (arith, bad, fails, shorter)
  | inr (c, s, (starts, good, word, shorter)) ↦ ground (arith, starts, good, shorter)
]

-- A number that is read takes its digits; without any the read fails.
scan_int_lem :
    (c : ℕ) (s : Bytes)
    → ((scan_int (c ∷ s)).1 ≡ true) ⊎ (length (scan_int (c ∷ s)).2 < length (c ∷ s))
unfolding scan_int scan_digits with_rest starts_digit drop_digits
scan_int_lem c s = ground (arith, drop_digits_rest s)

scan_int_rest : (c : ℕ) (s : Bytes) → length (scan_int (c ∷ s)).2 ≤ length (c ∷ s)
unfolding scan_int scan_digits with_rest drop_digits
scan_int_rest c s = ground (arith, drop_digits_rest s)

pub read_int-IsShorter : (old : ℤ) (ss : Stream) → IsShorter ss (read_int old ss).1
unfolding read_int
read_int-IsShorter old ss = elim (sentry-cases ss) [
  | inl (bad, fails, shorter) ↦ inl (ground (arith, bad, fails))
  | inr (c, s, (starts, good, word, shorter)) ↦ elim (scan_int_lem c s) [
    | inl failed ↦ inl (ground (arith, starts, failed))
    | inr less ↦ inr (ground (arith, starts, shorter, less))
  ]
]

pub read_int-IsSpent : (old : ℤ) (ss : Stream) → IsSpent ss (read_int old ss).1
unfolding read_int
read_int-IsSpent old ss = elim (sentry-cases ss) [
  | inl (bad, fails, shorter) ↦ ground (arith, bad, fails, shorter)
  | inr (c, s, (starts, good, word, shorter)) ↦
      ground (arith, starts, good, shorter, scan_int_rest c s)
]
