-- ===== src/Communication/Firewall.antt =====
-- `class Firewall`, common/src/Communication/Firewall.cpp, with the calls that `TLSServer::start` and
-- `TLSServer::run` make of it. The steady clock counts nanoseconds, and enters as an argument.
pub mod Rate
pub mod Waits
use ticket_ist.Prelude.{
  ℕ, ◌-◌, ◌/◌, ◌≡◌, Bool, true, false, not, ◌&&◌, none, some, List, [], ◌∷◌, Bytes, codes, ltb,
  arith, str_eq, str_eq_iff, if◌then◌else◌,
}
use ticket_ist.Prelude.Map.{Map, lookup, insert, contains}

-- A set of addresses is a map to nothing; a difference of times that would be negative counts as 0
-- seconds, as it does behind the cast.
pub record Firewall : Type 0 where
  pub allowed_ips : Map (Unit {0})
  pub blocked_ips : Map (Unit {0})
  pub client_last_request : Map ℕ
  pub rate_limit_seconds : ℕ

abbrev pub second : ℕ
second = 1000000000

abbrev pub new_firewall : Firewall
new_firewall = record {
  allowed_ips = [];
  blocked_ips = [];
  client_last_request = [];
  rate_limit_seconds = 1;
}

unfoldable pub add_allowed_ip : Bytes → Firewall → Firewall
unfolding insert
add_allowed_ip ip w = record w { allowed_ips = insert ip tt w.allowed_ips }

unfoldable pub add_blocked_ip : Bytes → Firewall → Firewall
unfolding insert
add_blocked_ip ip w = record w { blocked_ips = insert ip tt w.blocked_ips }

abbrev is_nil : {A : Type 0} → List A → Bool
is_nil [] = true
is_nil (a ∷ rest) = false

unfoldable pub is_allowed : Bytes → Firewall → Bool
unfolding contains
is_allowed ip w =
    if contains ip w.blocked_ips
    then false
    else not (not (is_nil w.allowed_ips) && not (contains ip w.allowed_ips))

-- Whether the request is one too many; if not, its time is kept.
unfoldable pub is_rate_limited : ℕ → Bytes → Firewall → Bool × Firewall
unfolding lookup insert
is_rate_limited now ip w =
    let kept = record w { client_last_request = insert ip now w.client_last_request } in
    elim (lookup ip w.client_last_request) [
      | none ↦ (false, kept)
      | some last ↦
          if ltb ((now - last) / second) w.rate_limit_seconds then (true, w) else (false, kept)
    ]

-- The rules of `TLSServer::start`.
abbrev pub loopback : Bytes
loopback = codes "127.0.0.1"

abbrev banned : Bytes
banned = codes "203.0.113.1"

unfoldable pub start_rules : Firewall → Firewall
unfolding add_allowed_ip add_blocked_ip
start_rules w = add_blocked_ip banned (add_allowed_ip loopback w)

-- The checks of `TLSServer::run` before a connection is taken.
unfoldable pub admit_connection : ℕ → Bytes → Firewall → Bool × Firewall
admit_connection now ip w =
    if not (is_allowed ip w)
    then (false, w)
    else let (limited, w') = is_rate_limited now ip w in (not limited, w')

-- By the rules of a server that was started the loopback address is allowed, and no other.
pub start_rules-is_allowed :
    (ip : Bytes) → is_allowed ip (start_rules new_firewall) ≡ str_eq ip loopback
unfolding is_allowed start_rules add_allowed_ip add_blocked_ip insert contains lookup
start_rules-is_allowed ip = ground (arith, str_eq_iff ip loopback, str_eq_iff ip banned)
