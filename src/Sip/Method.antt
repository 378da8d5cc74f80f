-- ===== src/Sip/Method.antt =====
-- `Method`: the requests that the gateway knows.
use modem2sip.Common.{ℕ, ◌==◌, Bool, Option, none, some, if◌then◌else◌}
use modem2sip.Text.{Text, codes}
use modem2sip.Text.Ops.{equal}
use modem2sip.Text.Words.{to_ascii_uppercase}

pub data Method : Type 0 where
  invite ack bye cancel register options info message notify subscribe update prack refer : Method

-- `==`, which compares the constructors' numbers.
abbrev pub number_of : Method → ℕ
number_of invite = 0
number_of ack = 1
number_of bye = 2
number_of cancel = 3
number_of register = 4
number_of options = 5
number_of info = 6
number_of message = 7
number_of notify = 8
number_of subscribe = 9
number_of update = 10
number_of prack = 11
number_of refer = 12

unfoldable pub same_method : Method → Method → Bool
same_method a b = number_of a == number_of b

unfoldable pub as_str : Method → Text
as_str invite = codes "INVITE"
as_str ack = codes "ACK"
as_str bye = codes "BYE"
as_str cancel = codes "CANCEL"
as_str register = codes "REGISTER"
as_str options = codes "OPTIONS"
as_str info = codes "INFO"
as_str message = codes "MESSAGE"
as_str notify = codes "NOTIFY"
as_str subscribe = codes "SUBSCRIBE"
as_str update = codes "UPDATE"
as_str prack = codes "PRACK"
as_str refer = codes "REFER"

-- The arms of the `match` in `parse`, in order.
unfoldable pub named : Text → Option Method
named s =
    if equal s (codes "INVITE")
    then some invite
    else if equal s (codes "ACK")
    then some ack
    else if equal s (codes "BYE")
    then some bye
    else if equal s (codes "CANCEL")
    then some cancel
    else if equal s (codes "REGISTER")
    then some register
    else if equal s (codes "OPTIONS")
    then some options
    else if equal s (codes "INFO")
    then some info
    else if equal s (codes "MESSAGE")
    then some message
    else if equal s (codes "NOTIFY")
    then some notify
    else if equal s (codes "SUBSCRIBE")
    then some subscribe
    else if equal s (codes "UPDATE")
    then some update
    else if equal s (codes "PRACK")
    then some prack
    else if equal s (codes "REFER")
    then some refer
    else none

unfoldable pub parse_method : Text → Option Method
parse_method s = named (to_ascii_uppercase s)
