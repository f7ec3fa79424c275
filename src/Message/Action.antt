-- ===== src/Message/Action.antt =====
-- `enum class ActionType`. A cast from `int` may give a value without a name.
use ticket_ist.Prelude.{if◌then◌else◌}
use ticket_ist.Prelude.Int.{ℤ, pos, ◌==ℤ◌}

pub data ActionType : Type 0 where
  sign_up log_in log_in_validator ticket_sell get_available_tickets buy_ticket accept reject :
      ActionType
  accept_auth reject_auth validate_ticket check_integrity log_out sell_ticket unknown : ActionType
  unnamed : ℤ → ActionType

-- `static_cast<int>(action)`
abbrev pub to_int : ActionType → ℤ
to_int sign_up = pos 0
to_int log_in = pos 1
to_int log_in_validator = pos 2
to_int ticket_sell = pos 3
to_int get_available_tickets = pos 4
to_int buy_ticket = pos 5
to_int accept = pos 6
to_int reject = pos 7
to_int accept_auth = pos 8
to_int reject_auth = pos 9
to_int validate_ticket = pos 10
to_int check_integrity = pos 11
to_int log_out = pos 12
to_int sell_ticket = pos 13
to_int unknown = pos 14
to_int (unnamed n) = n

-- `static_cast<ActionType>(n)`
unfoldable pub from_int : ℤ → ActionType
from_int n =
    if n ==ℤ pos 0
    then sign_up
    else if n ==ℤ pos 1
    then log_in
    else if n ==ℤ pos 2
    then log_in_validator
    else if n ==ℤ pos 3
    then ticket_sell
    else if n ==ℤ pos 4
    then get_available_tickets
    else if n ==ℤ pos 5
    then buy_ticket
    else if n ==ℤ pos 6
    then accept
    else if n ==ℤ pos 7
    then reject
    else if n ==ℤ pos 8
    then accept_auth
    else if n ==ℤ pos 9
    then reject_auth
    else if n ==ℤ pos 10
    then validate_ticket
    else if n ==ℤ pos 11
    then check_integrity
    else if n ==ℤ pos 12
    then log_out
    else if n ==ℤ pos 13
    then sell_ticket
    else if n ==ℤ pos 14
    then unknown
    else unnamed n
