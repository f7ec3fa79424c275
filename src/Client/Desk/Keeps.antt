-- ===== src/Client/Desk/Keeps.antt =====
-- What dialogs leave alone, one rule for each way to build a dialog: a relation between the desk
-- before and the desk after, whether the dialog ends, throws, or leaves the program.
use ticket_ist.Prelude.{
  ℕ, zero, suc, Bool, true, false, Option, List, [], ◌∷◌, Bytes, Exception, Result, ok, throw,
  if◌then◌else◌,
}
use ticket_ist.Text.Stream.{Stream}
use ticket_ist.Prelude.Int.{ℤ}
use ticket_ist.Client.Desk.{
  Desk, Outcome, Dialog, Round, again, leave, done, failed, exited, running, pure, raise, lift,
  exit, look, continue, handle, catch, next_round, take_draw, loop, say, ask_word, ask_char,
  ask_int, discard_line, rand_bytes, ◌>>=◌, ◌>>◌,
}

-- A relation that composes, and that allows any change of the terminal and of the draws.
pub record Allows (R : Desk → Desk → Type 0) : Type 0 where
  pub same : (d : Desk) → R d d
  pub chain : (d e f : Desk) → R d e → R e f → R d f
  pub reads : (d : Desk) (i : Stream) → R d (record d { input = i })
  pub writes : (d : Desk) (o : List Bytes) → R d (record d { output = o })
  pub draws_ : (d : Desk) (r : List (ℕ → Option Bytes)) → R d (record d { draws = r })

-- The dialog changes the desk as the relation says.
pub record Keeps (R : Desk → Desk → Type 0) {A : Type 0} (m : Dialog A) : Type 0 where
  pub at : (d : Desk) → R d (m d).1

module _ {R : Desk → Desk → Type 0} (allows : Allows R) where
  module _ {A : Type 0} where
    pub Keeps-pure : (a : A) → Keeps R (pure a)
    Keeps-pure a = record { at = λ d. allows.same d }

    pub Keeps-raise : (e : Exception) → Keeps R (raise {A = A} e)
    Keeps-raise e = record { at = λ d. allows.same d }

    lift_at : (r : Result A) (d : Desk) → R d (lift r d).1
    lift_at (ok a) d = allows.same d
    lift_at (throw e) d = allows.same d

    pub Keeps-lift : (r : Result A) → Keeps R (lift r)
    Keeps-lift r = record { at = lift_at r }

    pub Keeps-look : (f : Desk → A) → Keeps R (look f)
    Keeps-look f = record { at = λ d. allows.same d }

    pub Keeps-exit : Keeps R (exit {A = A})
    Keeps-exit = record { at = λ d. allows.same d }

    pub Keeps-if :
        (b : Bool) (m n : Dialog A) → Keeps R m → Keeps R n → Keeps R (if b then m else n)
    Keeps-if true m n km kn = km
    Keeps-if false m n km kn = kn

    handle_at :
        (f : Exception → Dialog A) (d : Desk) (x : Outcome A × Desk)
        → R d x.1
        → ((e : Exception) → Keeps R (f e))
        → R d (handle f x).1
    unfolding handle
    handle_at f d (failed e, d') h kf = allows.chain d d' (f e d').1 h ((kf e).at d')
    handle_at f d (done a, d') h kf = h
    handle_at f d (exited, d') h kf = h
    handle_at f d (running, d') h kf = h

    pub Keeps-catch :
        (m : Dialog A) (f : Exception → Dialog A)
        → Keeps R m
        → ((e : Exception) → Keeps R (f e))
        → Keeps R (catch m f)
    unfolding catch
    Keeps-catch m f km kf = record { at = λ d. handle_at f d (m d) (km.at d) kf }

  module _ {A B : Type 0} where
    continue_at :
        (f : A → Dialog B) (d : Desk) (x : Outcome A × Desk)
        → R d x.1
        → ((a : A) → Keeps R (f a))
        → R d (continue f x).1
    unfolding continue
    continue_at f d (done a, d') h kf = allows.chain d d' (f a d').1 h ((kf a).at d')
    continue_at f d (failed e, d') h kf = h
    continue_at f d (exited, d') h kf = h
    continue_at f d (running, d') h kf = h

    pub Keeps-bind :
        (m : Dialog A) (f : A → Dialog B)
        → Keeps R m
        → ((a : A) → Keeps R (f a))
        → Keeps R (m >>= f)
    unfolding ◌>>=◌
    Keeps-bind m f km kf = record { at = λ d. continue_at f d (m d) (km.at d) kf }

    pub Keeps-then : (m : Dialog A) (k : Dialog B) → Keeps R m → Keeps R k → Keeps R (m >> k)
    unfolding ◌>>◌
    Keeps-then m k km kk = record { at = λ d. continue_at (λ _. k) d (m d) (km.at d) (λ _. kk) }

  module _ {S A : Type 0} (body : S → Dialog (Round S A)) (step : (s : S) → Keeps R (body s)) where
    next-Keeps :
        (next : S → Dialog A)
        → ((s : S) → Keeps R (next s))
        → (r : Round S A) → Keeps R (next_round next r)
    next-Keeps next kn (again s) = record { at = λ d. (kn s).at d }
    next-Keeps next kn (leave a) = Keeps-pure a

    pub Keeps-loop : (rounds : ℕ) (s : S) → Keeps R (loop rounds body s)
    unfolding loop
    Keeps-loop zero s = record { at = λ d. allows.same d }
    Keeps-loop (suc rounds) s = record {
      at = λ d.
          continue_at (next_round (loop rounds body)) d (body s d) ((step s).at d)
            (next-Keeps (loop rounds body) (Keeps-loop rounds));
    }

  pub Keeps-say : (line : Bytes) → Keeps R (say line)
  Keeps-say line = record { at = λ d. allows.writes d _ }

  pub Keeps-ask_word : (old : Bytes) → Keeps R (ask_word old)
  Keeps-ask_word old = record { at = λ d. allows.reads d _ }

  pub Keeps-ask_char : (old : ℕ) → Keeps R (ask_char old)
  Keeps-ask_char old = record { at = λ d. allows.reads d _ }

  pub Keeps-ask_int : (old : ℤ) → Keeps R (ask_int old)
  Keeps-ask_int old = record { at = λ d. allows.reads d _ }

  pub Keeps-discard_line : Keeps R discard_line
  Keeps-discard_line = record { at = λ d. allows.reads d _ }

  draw_at : (size : ℕ) (d : Desk) (draws : List (ℕ → Option Bytes)) → R d (take_draw size draws d).1
  draw_at size d [] = allows.same d
  draw_at size d (draw ∷ rest) = allows.draws_ d rest

  pub Keeps-rand_bytes : (size : ℕ) → Keeps R (rand_bytes size)
  Keeps-rand_bytes size = record { at = λ d. draw_at size d d.draws }

pub ruleset keeps_rules = (
  Keeps-pure, Keeps-raise, Keeps-lift, Keeps-look, Keeps-exit, Keeps-if, Keeps-catch, Keeps-bind,
  Keeps-then, Keeps-loop, Keeps-say, Keeps-ask_word, Keeps-ask_char, Keeps-ask_int,
  Keeps-discard_line, Keeps-rand_bytes,
)
