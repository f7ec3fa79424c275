-- ===== src/Communication/Firewall/Waits.antt =====
-- Nobody is kept out for ever: the checks before a connection is taken, after any history.
use ticket_ist.Prelude.{
  ℕ, ◌+◌, ◌≤◌, ◌≡◌, true, Option, none, some, List, [], ◌∷◌, Bytes, arith, Option-cases, inl, inr,
  All,
}
use ticket_ist.Prelude.Map.{lookup, lookup-insert}
use ticket_ist.Communication.Firewall.{
  Firewall, is_rate_limited, is_allowed, admit_connection, second,
}

-- The loop of `TLSServer::run` over the connections that come in, by their times and addresses.
unfoldable pub check_all : List (ℕ × Bytes) → Firewall → Firewall
unfolding admit_connection
check_all [] w = w
check_all ((now, from) ∷ rs) w = check_all rs (admit_connection now from w).1

abbrev pub IsPast : ℕ → Option ℕ → Type 0
IsPast t none = Unit
IsPast t (some last) = last ≤ t

-- What a wait relies on.
record IsCalm (ip : Bytes) (t : ℕ) (w : Firewall) : Type 0 where
  one_second : w.rate_limit_seconds ≡ 1
  allowed : is_allowed ip w ≡ true
  past : IsPast t (lookup ip w.client_last_request)

admit_connection-IsCalm :
    (ip from : Bytes) (now t : ℕ) (w : Firewall)
    → now ≤ t
    → IsCalm ip t w
    → IsCalm ip t (admit_connection now from w).1
unfolding admit_connection is_rate_limited is_allowed
admit_connection-IsCalm ip from now t w before h = record {
  one_second = ground (arith, h.one_second);
  allowed = ground (arith, h.allowed);
  past = ground (arith, h.past, before, lookup-insert from ip now w.client_last_request);
}

admit_after_wait :
    (ip : Bytes) (now t : ℕ) (w : Firewall)
    → t + second ≤ now
    → IsCalm ip t w
    → (admit_connection now ip w).0 ≡ true
unfolding admit_connection is_rate_limited
admit_after_wait ip now t w waits h = elim (Option-cases (lookup ip w.client_last_request)) [
  | inl new ↦ ground (arith, new, h.allowed)
  | inr (last, known) ↦ ground (arith, known, h)
]

check_all-IsCalm :
    (ip : Bytes) (t : ℕ) (rs : List (ℕ × Bytes)) (w : Firewall)
    → All (λ (r : ℕ × Bytes). r.0 ≤ t) rs
    → IsCalm ip t w
    → IsCalm ip t (check_all rs w)
unfolding check_all
check_all-IsCalm ip t [] w before h = h
check_all-IsCalm ip t ((now, from) ∷ rs) w (first, before) h =
    check_all-IsCalm ip t rs (admit_connection now from w).1 before
      (admit_connection-IsCalm ip from now t w first h)

-- With the limit of one second, an allowed address that tries again a second after everything that
-- came in before, of itself and of others, is let through, however often it was turned away.
pub admit_connection-check_all :
    (ip : Bytes) (now t : ℕ) (rs : List (ℕ × Bytes)) (w : Firewall)
    → w.rate_limit_seconds ≡ 1
    → is_allowed ip w ≡ true
    → IsPast t (lookup ip w.client_last_request)
    → All (λ (r : ℕ × Bytes). r.0 ≤ t) rs
    → t + second ≤ now
    → (admit_connection now ip (check_all rs w)).0 ≡ true
admit_connection-check_all ip now t rs w one allowed past before waits =
    admit_after_wait ip now t (check_all rs w) waits (
      check_all-IsCalm ip t rs w before
        (record { one_second = one; allowed = allowed; past = past }))
