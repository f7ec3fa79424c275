-- ===== src/Text/Stream.antt =====
-- `std::getline` on a `std::istringstream`.
use ticket_ist.Prelude.{
  ℕ, ◌≡◌, refl, ◌≢◌, Bool, true, false, Option, none, some, [], ◌∷◌, ◌++◌, arith, ◌==◌,
  if◌then◌else◌, Bytes, is_empty, Lacks,
}

-- The line before the first delimiter with what is left behind it, and whether a delimiter was
-- found (if not, the end of the stream was met).
scan_line : ℕ → Bytes → Bytes × Bytes × Bool
scan_line d [] = ([], [], false)
scan_line d (c ∷ s) =
    let (line, rest, found) = scan_line d s in
    if c == d then ([], s, true) else (c ∷ line, rest, found)

-- `std::getline(ss, x, d)` as a test: `none` is a stream that fails, which is one with nothing
-- left. A caller stops there.
unfoldable pub get_line : ℕ → Bytes → Option (Bytes × Bytes)
unfolding scan_line
get_line d [] = none
get_line d (c ∷ s) = let (line, rest, found) = scan_line d (c ∷ s) in some (line, rest)

-- The same for a caller that does not test the stream: it keeps its flags.
pub record Stream : Type 0 where
  pub unread : Bytes
  pub eof : Bool
  pub fail : Bool

abbrev pub open_stream : Bytes → Stream
open_stream s = record { unread = s; eof = false; fail = false }

-- A stream that is not good leaves the text alone; otherwise the text is cleared, and filled with
-- the line. The stream fails if neither a character nor a delimiter was there.
unfoldable pub get_line_into : ℕ → Bytes → Stream → Bytes × Stream
unfolding scan_line is_empty
get_line_into d text ss =
    let (line, rest, found) = scan_line d ss.unread in
    if ss.eof
    then (text, record ss { fail = true })
    else if ss.fail
    then (text, ss)
    else if found
    then (line, record ss { unread = rest })
    else (line, record { unread = []; eof = true; fail = is_empty ss.unread })

scan_line-append : (d : ℕ) (a b : Bytes) → Lacks d a → scan_line d (a ++ d ∷ b) ≡ (a, b, true)
unfolding scan_line
scan_line-append d [] b h = ground arith
scan_line-append d (c ∷ a) b (hc, ha) = ground (arith, scan_line-append d a b ha)

scan_line-last : (d : ℕ) (a : Bytes) → Lacks d a → scan_line d a ≡ (a, [], false)
unfolding scan_line
scan_line-last d [] h = refl
scan_line-last d (c ∷ a) (hc, ha) = ground (arith, scan_line-last d a ha)

-- A field that lacks the delimiter is read back, with what stands behind the delimiter.
pub get_line-append : (d : ℕ) (a b : Bytes) → Lacks d a → get_line d (a ++ d ∷ b) ≡ some (a, b)
unfolding get_line
get_line-append d [] b h = rw (scan_line-append d [] b h) refl
get_line-append d (c ∷ a) b h = rw (scan_line-append d (c ∷ a) b h) refl

-- The last field is read back too, if it is not empty.
pub get_line-last : (d : ℕ) (a : Bytes) → a ≢ [] → Lacks d a → get_line d a ≡ some (a, [])
unfolding get_line
get_line-last d [] ne h = absurd (ne refl)
get_line-last d (c ∷ a) ne h = rw (scan_line-last d (c ∷ a) h) refl

pub get_line_into-append :
    (d : ℕ) (text a b : Bytes)
    → Lacks d a
    → get_line_into d text (open_stream (a ++ d ∷ b)) ≡ (a, open_stream b)
unfolding get_line_into
get_line_into-append d text a b h = rw (scan_line-append d a b h) refl

pub get_line_into-last :
    (d : ℕ) (text a : Bytes) → Lacks d a → (get_line_into d text (open_stream a)).0 ≡ a
unfolding get_line_into
get_line_into-last d text a h = rw (scan_line-last d a h) refl

-- What a read up to the delimiter takes of `s`.
unfoldable pub first_line : ℕ → Bytes → Bytes
unfolding scan_line
first_line d s = (scan_line d s).0

first_line-append : (d : ℕ) (a s : Bytes) → Lacks d a → first_line d (a ++ s) ≡ a ++ first_line d s
unfolding first_line
first_line-append d [] s h = refl
first_line-append d (c ∷ a) s (hc, ha) = ground (arith, first_line-append d a s ha)

-- A read takes a first part that lacks the delimiter, and goes on into what follows it.
pub get_line-prefix :
    (d : ℕ) (a s : Bytes)
    → a ≢ []
    → Lacks d a
    → (rest : Bytes) × (get_line d (a ++ s) ≡ some (a ++ first_line d s, rest))
unfolding get_line
get_line-prefix d [] s ne h = absurd (ne refl)
get_line-prefix d (c ∷ a) s ne h = (
  (scan_line d (c ∷ a ++ s)).1,
  rw (← first_line-append d (c ∷ a) s h) (unfold first_line in refl),
)
