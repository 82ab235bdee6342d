-- ===== src/Examples/Servers.antt =====
-- Publication, presence and calls to an agent at concrete inputs.
use buildbee.Base.{
  ℕ, ◌≡◌, refl, ◌≤◌, ◌+◌, true, false, none, some, List, [], ◌∷◌, arith, map, keep, count_if,
  exists,
}
use buildbee.Base.Sort.{sort_by}
use buildbee.Text.{Text, bytes, text_eq}
use buildbee.Text.Decimal.{digits}
use buildbee.Event.{Event, presence_data}
use buildbee.Models.Members.{is_nil}
use buildbee.Core.Publish.{about_topic, by_cursor, in_topic_order}
use buildbee.Core.Publish.Order.{in_topic_order_lem}
use buildbee.Core.Presence.{
  Move, opens, closes, presence_run, online, release, get_key, new_presence,
}
use buildbee.Core.Presence.People.{
  entry, open_connections, people_refine, people_told, published_if, opens_first, closes_last,
}
use buildbee.Agent.Rpc
use buildbee.Agent.Rpc.{
  Conn, Message, begins, unsent, reads, message, end_of_file, conn_run, new_conn, register,
  dispatch, respond, lookup, delete, withdraw, read_line, shut,
}
use buildbee.Agent.Rpc.Calls.{is_settled, conn_run-once, conn_run-ends}
use buildbee.Agent.Rpc.Calls.Pending.{for_call, to_call}

abbrev event : Text → ℕ → Event
event topic cursor = record { topic = topic; cursor = cursor; type = []; body = presence_data }

-- A reply is emitted before the message that it answers.
abbrev emitted : List Event
emitted = event (bytes "channel:a") 2 ∷ event (bytes "run:b") 7 ∷ event (bytes "channel:a") 1 ∷ []

in_topic_order_example :
    (map (λ e. e.topic) (in_topic_order emitted) ≡ map (λ e. e.topic) emitted)
    × ((t : Text)
        → keep (about_topic t) (in_topic_order emitted)
          ≡ sort_by by_cursor (keep (about_topic t) emitted))
in_topic_order_example = in_topic_order_lem emitted

-- Ann opens two windows and closes one of them, twice.
abbrev ann : Text
ann = bytes "ann"

abbrev windows : List Move
windows = opens ann ∷ opens ann ∷ closes 0 ∷ closes 0 ∷ []

people_example :
    get_key ann (presence_run windows new_presence).people
    ≡ entry (open_connections ann (presence_run windows new_presence))
people_example = people_refine windows ann

told_example :
    ((online (bytes "bob") (presence_run windows new_presence)).published
      ≡ published_if
          (opens_first (bytes "bob") (presence_run windows new_presence))
          (presence_run windows new_presence))
    × ((release 1 (presence_run windows new_presence)).published
        ≡ published_if
            (closes_last 1 (presence_run windows new_presence))
            (presence_run windows new_presence))
told_example = people_told windows (bytes "bob") 1

-- Two calls: the second is answered, the first is not when the agent exits.
abbrev answer : Message
answer = record {
  id = some (bytes "2");
  method = [];
  params = [];
  result = bytes "{}";
  error = none;
}

abbrev talk : List Rpc.Move
talk = begins ∷ begins ∷ reads (message answer) ∷ reads end_of_file ∷ []

calls_example :
    count_if (for_call 2) (conn_run talk new_conn).pending
      + count_if (to_call 2) (conn_run talk new_conn).answers
    ≤ 1
calls_example = conn_run-once talk 2

it_ended : is_nil (conn_run talk new_conn).closed ≡ false
unfolding conn_run Rpc.move register dispatch respond lookup delete withdraw read_line shut text_eq
    digits
it_ended = refl

two_calls : 2 ≤ (conn_run talk new_conn).next_id
unfolding conn_run Rpc.move register dispatch respond lookup delete withdraw read_line shut text_eq
    digits
two_calls = omega arith

ends_example :
    (exists (for_call 1) (conn_run talk new_conn).pending ≡ false)
    × (is_settled 1 (conn_run talk new_conn) ≡ true)
    × (register (conn_run talk new_conn) ≡ (none, conn_run talk new_conn))
ends_example = conn_run-ends talk 1 it_ended (omega arith) (omega (arith, two_calls))
