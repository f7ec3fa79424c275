-- ===== src/Ticket/Code.antt =====
-- Random texts: `Ticket::generateValidationCode` and `Ticket::generateRandomSeat`
-- (common/src/Ticket/Ticket.cpp), and `AuthenticatedMessage::generateCookie`
-- (common/src/Message/AuthenticatedMessage.cpp). The draws of the generator enter as a function
-- from the number of the draw.
use ticket_ist.Prelude.{
  ℕ, zero, suc, ◌+◌, ◌<◌, ◌%◌, ◌≡◌, refl, Bool, true, ◌&&◌, ◌||◌, [], ◌∷◌, ◌++◌, arith, leb, Bytes,
  codes, length, get_or, All, All-append, ap,
}
use ticket_ist.Prelude.Int.{pos}
use ticket_ist.Text.Decimal.{print_ℤ}

-- `for (…; i < length; ++i) code += chars[dist(gen)]`, from the draw `i` on.
draw_chars : Bytes → (ℕ → ℕ) → ℕ → ℕ → Bytes
draw_chars chars draw i zero = []
draw_chars chars draw i (suc left) = get_or chars (draw i) 0 ∷ draw_chars chars draw (suc i) left

abbrev pub code_chars : Bytes
code_chars = codes "ABCDEFGHIJKLMNOPQRSTUVWXYZabcdefghijklmnopqrstuvwxyz0123456789"

abbrev cookie_chars : Bytes
cookie_chars = codes "0123456789ABCDEFGHIJKLMNOPQRSTUVWXYZabcdefghijklmnopqrstuvwxyz"

unfoldable pub generate_validation_code : (ℕ → ℕ) → ℕ → Bytes
unfolding draw_chars
generate_validation_code draw length = draw_chars code_chars draw 0 length

unfoldable pub generate_cookie : (ℕ → ℕ) → Bytes
unfolding draw_chars
generate_cookie draw = codes "COOKIE_" ++ draw_chars cookie_chars draw 0 32

-- `rand() % 100` and `'A' + rand() % 26`
unfoldable pub generate_random_seat : ℕ → ℕ → Bytes
generate_random_seat r1 r2 = print_ℤ (pos (r1 % 100)) ++ (b'A' + r2 % 26) ∷ []

abbrev pub is_alphanumeric : ℕ → Bool
is_alphanumeric c =
    (leb b'0' c && leb c b'9') || (leb b'A' c && leb c b'Z') || (leb b'a' c && leb c b'z')

abbrev pub IsAlphanumeric : Bytes → Type 0
IsAlphanumeric = All (λ c. is_alphanumeric c ≡ true)

-- Letters, digits and the underscore.
abbrev pub is_word : ℕ → Bool
is_word c = is_alphanumeric c || (leb 95 c && leb c 95)

abbrev pub IsWordByte : ℕ → Type 0
IsWordByte c = is_word c ≡ true

abbrev pub IsWord : Bytes → Type 0
IsWord = All IsWordByte

pub get_or-All : (P : ℕ → Type 0) (s : Bytes) (i : ℕ) → All P s → i < length s → P (get_or s i 0)
get_or-All P [] i h lt = absurd (omega arith)
get_or-All P (c ∷ s) zero h lt = h.0
get_or-All P (c ∷ s) (suc i) h lt = get_or-All P s i h.1 (omega arith)

draw_chars-All :
    (P : ℕ → Type 0) (chars : Bytes) (draw : ℕ → ℕ)
    → All P chars
    → ((i : ℕ) → draw i < length chars)
    → (i left : ℕ) → All P (draw_chars chars draw i left)
unfolding draw_chars
draw_chars-All P chars draw h lt i zero = tt
draw_chars-All P chars draw h lt i (suc left) =
    (get_or-All P chars (draw i) h (lt i), draw_chars-All P chars draw h lt (suc i) left)

length-draw_chars :
    (chars : Bytes) (draw : ℕ → ℕ) (i left : ℕ) → length (draw_chars chars draw i left) ≡ left
unfolding draw_chars
length-draw_chars chars draw i zero = refl
length-draw_chars chars draw i (suc left) = ap suc (length-draw_chars chars draw (suc i) left)

-- If every draw is one of the 62 characters, a validation code has the length asked for, and holds
-- letters and digits only.
pub generate_validation_code_lem :
    (draw : ℕ → ℕ) (n : ℕ)
    → ((i : ℕ) → draw i < 62)
    → (length (generate_validation_code draw n) ≡ n)
      × IsAlphanumeric (generate_validation_code draw n)
unfolding generate_validation_code
generate_validation_code_lem draw n h = (
  length-draw_chars code_chars draw 0 n,
  draw_chars-All (λ c. is_alphanumeric c ≡ true) code_chars draw (ground arith) h 0 n,
)

pub generate_cookie-IsWord :
    (draw : ℕ → ℕ) → ((i : ℕ) → draw i < 62) → IsWord (generate_cookie draw)
unfolding generate_cookie
generate_cookie-IsWord draw h =
    All-append IsWordByte (codes "COOKIE_") (draw_chars cookie_chars draw 0 32) (ground arith)
      (draw_chars-All IsWordByte cookie_chars draw (ground arith) h 0 32)
