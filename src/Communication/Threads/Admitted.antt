-- ===== src/Communication/Threads/Admitted.antt =====
-- Whom the server talks to.
use ticket_ist.Prelude.{ℕ, ◌≡◌, true, [], ◌∷◌, List, Bytes, All, arith, str_eq, str_eq_iff}
use mathlib.Core.Path.{subst, sym}
use ticket_ist.Platform.{Platform}
use ticket_ist.Communication.Firewall.{
  Firewall, new_firewall, start_rules, is_allowed, is_rate_limited, admit_connection, loopback,
  start_rules-is_allowed,
}
use ticket_ist.Communication.Threads.{
  Connection, Server, close, Step, connects, turned_away, works, ends, Reach, here, next,
}

abbrev pub IsLocal : Connection → Type 0
IsLocal c = c.1 ≡ loopback

-- The checks of a connection change no rule.
is_allowed-admit_connection :
    (now : ℕ) (from ip : Bytes) (w : Firewall)
    → is_allowed ip (admit_connection now from w).1 ≡ is_allowed ip w
unfolding admit_connection is_rate_limited is_allowed
is_allowed-admit_connection now from ip w = ground arith

admit_connection-is_allowed :
    (now : ℕ) (ip : Bytes) (w : Firewall)
    → (admit_connection now ip w).0 ≡ true
    → is_allowed ip w ≡ true
unfolding admit_connection
admit_connection-is_allowed now ip w h = ground (arith, h)

close-All :
    (ssl : ℕ) (connections : List Connection)
    → All IsLocal connections
    → All IsLocal (close ssl connections)
unfolding close
close-All ssl [] h = tt
close-All ssl ((c, ip) ∷ connections) (first, rest) =
    ground (arith, first, close-All ssl connections rest)

-- The rules of a start hold, and every connection is from the loopback address.
record IsSheltered {p : Platform} (s : Server p) : Type 0 where
  rules : (ip : Bytes) → is_allowed ip s.firewall ≡ str_eq ip loopback
  locals : All IsLocal s.connections

module _ {p : Platform} where
  admits-IsSheltered :
      (now : ℕ) (ip : Bytes) (s : Server p)
      → IsSheltered s
      → IsSheltered (record s { firewall = (admit_connection now ip s.firewall).1 })
  admits-IsSheltered now ip s h = record {
    rules = λ other. rw (is_allowed-admit_connection now ip other s.firewall) (h.rules other);
    locals = h.locals;
  }

  Step-IsSheltered : {s t : Server p} → Step s t → IsSheltered s → IsSheltered t
  Step-IsSheltered {s} (connects ssl now ip admitted closed e) h =
      let allowed = admit_connection-is_allowed now ip s.firewall admitted in
      let local : ip ≡ loopback = ground (arith, allowed, h.rules ip, str_eq_iff ip loopback) in
      subst IsSheltered (sym e)
        (record { rules = (admits-IsSheltered now ip s h).rules; locals = (local, h.locals) })
  Step-IsSheltered {s} (turned_away now ip e) h =
      subst IsSheltered (sym e) (admits-IsSheltered now ip s h)
  Step-IsSheltered (works ssl c open_ e) h =
      subst IsSheltered (sym e) (record { rules = h.rules; locals = h.locals })
  Step-IsSheltered {s} (ends ssl open_ e) h =
      subst IsSheltered (sym e)
        (record { rules = h.rules; locals = close-All ssl s.connections h.locals })

  Reach-IsSheltered : {s t : Server p} → Reach s t → IsSheltered s → IsSheltered t
  Reach-IsSheltered here h = h
  Reach-IsSheltered (next r step) h = Step-IsSheltered step (Reach-IsSheltered r h)

  -- From a server with the rules of its start and no connection, whoever comes in and whatever is sent,
  -- in any order, a client that the server talks to has the loopback address.
  pub Reach-IsLocal :
      {s t : Server p}
      → Reach s t
      → s.firewall ≡ start_rules new_firewall
      → s.connections ≡ []
      → All IsLocal t.connections
  Reach-IsLocal {s} {t} r rules none_ =
      (Reach-IsSheltered r (record {
        rules = λ ip. rw (rules) (start_rules-is_allowed ip);
        locals = rw (none_) tt;
      })).locals
