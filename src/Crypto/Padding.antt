-- ===== src/Crypto/Padding.antt =====
-- `padData` and `unpadData`, common/src/Crypto/CryptographicLibrary.cpp. Nothing calls them: the
-- cipher of OpenSSL pads by itself.
use ticket_ist.Prelude.{
  ℕ, zero, suc, ◌+◌, ◌-◌, ◌%◌, ◌^◌, ◌<◌, ap, ◌∙◌, sym, ◌≡◌, refl, Option, none, some, [], ◌∷◌, ◌++◌,
  arith, Bytes, length, take, ltb, leb, if◌then◌else◌,
}
use mathlib.Core.Path.{subst}
use ticket_ist.Crypto.{block_size}

abbrev repeat : ℕ → ℕ → Bytes
repeat zero c = []
repeat (suc n) c = c ∷ repeat n c

abbrev last_or : ℕ → Bytes → ℕ
last_or d [] = d
last_or d (c ∷ s) = last_or c s

abbrev padding_required : Bytes → ℕ
padding_required s = block_size - length s % block_size

unfoldable pub pad_data : Bytes → Bytes
pad_data s = s ++ repeat (padding_required s) (padding_required s)

-- `static_cast<size_t>` of a signed `char`
unfoldable pub size_of_char : ℕ → ℕ
size_of_char c = if ltb c 128 then c else 2 ^ 64 - (256 - c)

-- `s.resize(n)`, which throws above the largest size
unfoldable pub resize : ℕ → Bytes → Option Bytes
resize n s =
    if leb (2 ^ 62) n
    then none
    else if leb n (length s)
    then some (take n s)
    else some (s ++ repeat (n - length s) 0)

-- `none` is the exception of `resize`; the difference of the sizes wraps.
unfoldable pub unpad_data : Bytes → Option Bytes
unfolding resize size_of_char
unpad_data [] = some []
unpad_data (c ∷ s) =
    resize ((length (c ∷ s) + 2 ^ 64 - size_of_char (last_or c s)) % 2 ^ 64) (c ∷ s)

length-repeat : (n c : ℕ) → length (repeat n c) ≡ n
length-repeat zero c = refl
length-repeat (suc n) c = ap suc (length-repeat n c)

last_or-repeat : (d k c : ℕ) → last_or d (repeat (suc k) c) ≡ c
last_or-repeat d zero c = refl
last_or-repeat d (suc k) c = last_or-repeat c k c

last_or-append : (d : ℕ) (s : Bytes) (k c : ℕ) → last_or d (s ++ repeat (suc k) c) ≡ c
last_or-append d [] k c = last_or-repeat d k c
last_or-append d (x ∷ s) k c = last_or-append x s k c

take-length : (s t : Bytes) → take (length s) (s ++ t) ≡ s
take-length [] t = refl
take-length (c ∷ s) t = ap (λ r. c ∷ r) (take-length s t)

length-append : (s t : Bytes) → length (s ++ t) ≡ length s + length t
length-append [] t = omega arith
length-append (c ∷ s) t = omega (arith, length-append s t)

-- What `resize` gets: the size less that of the padding, whatever the first byte.
unpad_data-last :
    (s : Bytes) (n k : ℕ)
    → 0 < length s
    → last_or 0 s ≡ k
    → k < 128
    → length s ≡ n + k
    → length s < 2 ^ 62
    → unpad_data s ≡ some (take n s)
unfolding unpad_data resize size_of_char
unpad_data-last [] n k ne l small sizes fits = absurd (omega (arith, ne))
unpad_data-last (c ∷ s) n k ne l small sizes fits = ground (arith, l, small, sizes, fits)

unpad_data-repeat :
    (s : Bytes) (k : ℕ)
    → k < 16
    → length (s ++ repeat (suc k) (suc k)) < 2 ^ 62
    → unpad_data (s ++ repeat (suc k) (suc k)) ≡ some s
unpad_data-repeat s k small fits =
    let sizes : length (s ++ repeat (suc k) (suc k)) ≡ length s + suc k =
      length-append s (repeat (suc k) (suc k))
      ∙ ap (λ n. length s + n) (length-repeat (suc k) (suc k)) in
    unpad_data-last (s ++ repeat (suc k) (suc k)) (length s) (suc k) (omega (arith, sizes))
      (last_or-append 0 s k (suc k)) (omega arith) sizes fits
    ∙ ap some (take-length s (repeat (suc k) (suc k)))

-- A text whose padded form has fewer than 2 ^ 62 bytes is given back by the unpadding.
pub unpad_data-pad_data :
    (s : Bytes) → length (pad_data s) < 2 ^ 62 → unpad_data (pad_data s) ≡ some s
unfolding pad_data
unpad_data-pad_data s fits =
    let k : ℕ = padding_required s - 1 in
    let e : padding_required s ≡ suc k = omega arith in
    subst (λ n. length (s ++ repeat n n) < 2 ^ 62 → unpad_data (s ++ repeat n n) ≡ some s) (sym e)
      (unpad_data-repeat s k (omega arith)) fits
