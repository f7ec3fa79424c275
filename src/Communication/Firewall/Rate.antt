-- ===== src/Communication/Firewall/Rate.antt =====
-- The limit of the rate over a sequence of connections.
use ticket_ist.Prelude.{
  ℕ, ◌+◌, ◌≤◌, ◌≡◌, true, false, Option, none, some, List, [], ◌∷◌, Bytes, arith, str_eq,
  str_eq_iff, if◌then◌else◌, Option-cases, Bool-cases, inl, inr, sym,
}
use mathlib.Core.Path.{subst}
use ticket_ist.Prelude.Map.{lookup, lookup-insert}
use ticket_ist.Communication.Firewall.{Firewall, is_rate_limited, admit_connection, second}

-- The connections that come in, by their times and addresses, and the times of those of `ip` that are
-- let through.
unfoldable pub admitted_at : Bytes → List (ℕ × Bytes) → Firewall → List ℕ
unfolding str_eq
admitted_at ip [] w = []
admitted_at ip ((now, from) ∷ rs) w =
    let (through, w') = admit_connection now from w in
    let later = admitted_at ip rs w' in
    if through then (if str_eq ip from then now ∷ later else later) else later

-- Not less than a second behind the one before.
abbrev pub Follows : Option ℕ → ℕ → Type 0
Follows none now = Unit
Follows (some last) now = last + second ≤ now

abbrev pub IsSpaced : Option ℕ → List ℕ → Type 0
IsSpaced last [] = Unit
IsSpaced last (now ∷ later) = Follows last now × IsSpaced (some now) later

-- One connection: what it makes of the last time of an address.
module _ (ip from : Bytes) (now : ℕ) (w : Firewall) (one : w.rate_limit_seconds ≡ 1) where
  abbrev after : Firewall
  after = (admit_connection now from w).1

  keeps_limit : after.rate_limit_seconds ≡ 1
  unfolding admit_connection is_rate_limited
  keeps_limit = ground (arith, one)

  turned_away : (admit_connection now from w).0 ≡ false → after ≡ w
  unfolding admit_connection is_rate_limited
  turned_away h = ground (arith, h)

  let_through :
      (admit_connection now from w).0 ≡ true
      → lookup ip after.client_last_request
        ≡ (if str_eq ip from then some now else lookup ip w.client_last_request)
  unfolding admit_connection is_rate_limited
  let_through h = ground (arith, h, lookup-insert from ip now w.client_last_request)

  follows : (admit_connection now from w).0 ≡ true → Follows (lookup from w.client_last_request) now
  unfolding admit_connection is_rate_limited
  follows h = elim (Option-cases (lookup from w.client_last_request)) [
    | inl new ↦ rw new tt
    | inr (last, known) ↦ rw known (ground (arith, h, known, one))
  ]

-- With the limit of one second, the connections of an address that are let through are at least a
-- second apart, also from the last one before, in whatever order and number connections come in.
pub admitted_at-IsSpaced :
    (ip : Bytes) (rs : List (ℕ × Bytes)) (w : Firewall)
    → w.rate_limit_seconds ≡ 1
    → IsSpaced (lookup ip w.client_last_request) (admitted_at ip rs w)
unfolding admitted_at
admitted_at-IsSpaced ip [] w one = tt
admitted_at-IsSpaced ip ((now, from) ∷ rs) w one =
    let w' = (admit_connection now from w).1 in
    let ih = admitted_at-IsSpaced ip rs w' (keeps_limit ip from now w one) in
    elim (Bool-cases (admit_connection now from w).0) [
      | inr away ↦ rw away (
          subst (λ v. IsSpaced (lookup ip v.client_last_request) (admitted_at ip rs w'))
            (turned_away ip from now w one away) ih)
      | inl through ↦
          let known = let_through ip from now w one through in
          let ih' = subst (λ l. IsSpaced l (admitted_at ip rs w')) known ih in
          rw through (elim (Bool-cases (str_eq ip from)) [
            | inr other ↦ rw other (
                subst
                  (λ b.
                    IsSpaced (if b then some now else lookup ip w.client_last_request)
                      (admitted_at ip rs w'))
                  other ih')
            | inl same ↦
                let at =
                  subst (λ a. Follows (lookup a w.client_last_request) now)
                    (sym ((str_eq_iff ip from).0 same)) (follows ip from now w one through) in
                rw same (
                  at,
                  subst
                      (λ b.
                        IsSpaced (if b then some now else lookup ip w.client_last_request)
                          (admitted_at ip rs w'))
                      same ih',
                )
          ])
    ]
