-- ===== src/Communication/Receive/Whole.antt =====
-- Which replies arrive as a whole.
use ticket_ist.Prelude.{
  ◌<◌, ◌≡◌, true, none, some, List, [], ◌∷◌, ◌++◌, append_assoc, append-nil, Bytes, length, arith,
  ok, All, ap, sym,
}
use ticket_ist.Communication.Receive.{Read, bytes, buffer_size, receive_from, receive_data}

-- Reads that fill the buffer, one after the other, and then what follows them.
abbrev pub full_reads : List Bytes → List Read → List Read
full_reads [] reads = reads
full_reads (chunk ∷ chunks) reads = bytes chunk ∷ full_reads chunks reads

abbrev pub joined : List Bytes → Bytes
joined [] = []
joined (chunk ∷ chunks) = chunk ++ joined chunks

abbrev pub IsFull : Bytes → Type 0
IsFull chunk = length chunk ≡ buffer_size

-- Full buffers are added to what was read before.
receive_from-full_reads :
    (result : Bytes) (chunks : List Bytes) (reads : List Read)
    → All IsFull chunks
    → receive_from result (full_reads chunks reads) ≡ receive_from (result ++ joined chunks) reads
unfolding receive_from
receive_from-full_reads result [] reads h = ap (λ r. receive_from r reads) (sym (append-nil result))
receive_from-full_reads result (chunk ∷ chunks) reads (full, h) = ground (
  arith,
  full,
  receive_from-full_reads (result ++ chunk) chunks reads h,
  append_assoc result chunk (joined chunks),
)

-- A reply in full buffers and one read that does not fill it is received as a whole, and the reads
-- behind it are left; a reply in full buffers only is not returned before something more is read.
pub receive_data-full_reads :
    (chunks : List Bytes) (last : Bytes) (reads : List Read)
    → All IsFull chunks
    → length last < buffer_size
    → (receive_data true (full_reads chunks (bytes last ∷ reads))
        ≡ some (ok (joined chunks ++ last), reads))
      × (receive_data true (full_reads chunks []) ≡ none)
unfolding receive_data receive_from
receive_data-full_reads chunks last reads h short = (
  ground (arith, short, receive_from-full_reads [] chunks (bytes last ∷ reads) h),
  receive_from-full_reads [] chunks [] h,
)
