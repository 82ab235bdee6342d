-- ===== src/Agent/Rpc.antt =====
-- conn of internal/agent/acp/rpc.go, the server's end of a conversation in JSON-RPC with an agent.
--
-- A channel is known by the number of the call that waits on it; it has room for one response. The
-- critical sections of the goroutines are steps of the state, and their interleaving is a list. JSON
-- is left out: a message is read or is not.
pub mod Calls
use buildbee.Base.{
  ℕ, suc, Bool, true, false, not, ◌&&◌, Option, none, some, List, [], ◌∷◌, ◌++◌, keep, is_empty,
  if◌then◌else◌,
}
use buildbee.Text.{Text, bytes, text_eq}
use buildbee.Text.Decimal.{decimal}
use buildbee.Models.Members.{is_nil}

-- message, as it is read
pub record Message : Type 0 where
  pub id : Option Text
  pub method : Text
  pub params : Text
  pub result : Text
  pub error : Option Text

-- response
pub data Response : Type 0 where
  result_of : Text → Response
  error_of : Text → Response

-- conn, with the responses that were put on channels, the calls that `start` gave up, the requests
-- that goroutines answer, and the notifications that were handled, in order.
pub record Conn : Type 0 where
  pub next_id : ℕ
  pub pending : List (Text × ℕ)
  pub closed : Option Text
  pub answers : List (ℕ × Response)
  pub given_up : List ℕ
  pub asked : List Message
  pub told : List Message

-- newConn
abbrev pub new_conn : Conn
new_conn = record {
  next_id = 0;
  pending = [];
  closed = none;
  answers = [];
  given_up = [];
  asked = [];
  told = [];
}

-- c.pending[key]
unfoldable pub lookup : Text → List (Text × ℕ) → Option ℕ
unfolding text_eq
lookup key [] = none
lookup key (p ∷ ps) = if text_eq p.0 key then some p.1 else lookup key ps

-- delete(c.pending, key)
unfoldable pub delete : Text → List (Text × ℕ) → List (Text × ℕ)
unfolding text_eq
delete key [] = []
delete key (p ∷ ps) = let rest = delete key ps in if text_eq p.0 key then rest else p ∷ rest

abbrev pub registered : ℕ → Conn → Conn
registered n c = record c { next_id = n; pending = (decimal n, n) ∷ delete (decimal n) c.pending }

-- The critical section of `start`: the number of the call, or why there is none.
abbrev pub begun : Option Text → Conn → Option ℕ × Conn
begun (some reason) c = (none, c)
begun none c = (some (suc c.next_id), registered (suc c.next_id) c)

unfoldable pub register : Conn → Option ℕ × Conn
register c = begun c.closed c

-- The end of `start` when the request could not be sent.
unfoldable pub withdraw : ℕ → Conn → Conn
withdraw n c = record c { pending = delete (decimal n) c.pending; given_up = n ∷ c.given_up }

abbrev pub answered_by : Message → Response
answered_by m = elim m.error [ none ↦ result_of m.result | some e ↦ error_of e ]

abbrev pub put : Option ℕ → Response → List (ℕ × Response) → List (ℕ × Response)
put none r xs = xs
put (some n) r xs = (n, r) ∷ xs

-- The third case of `dispatch`.
unfoldable pub respond : Text → Response → Conn → Conn
respond key r c = record c {
  pending = delete key c.pending;
  answers = put (lookup key c.pending) r c.answers;
}

abbrev pub without_method : Message → Conn → Conn
without_method m c = elim m.id [ none ↦ c | some key ↦ respond key (answered_by m) c ]

-- dispatch
unfoldable pub dispatch : Message → Conn → Conn
dispatch m c =
    if not (is_empty m.method) && not (is_nil m.id)
    then record c { asked = c.asked ++ m ∷ [] }
    else if not (is_empty m.method)
    then record c { told = c.told ++ m ∷ [] }
    else without_method m c

abbrev pub all_fail : Text → List (Text × ℕ) → List (ℕ × Response)
all_fail reason [] = []
all_fail reason (p ∷ ps) = (p.1, error_of reason) ∷ all_fail reason ps

-- The end of `readLoop`.
unfoldable pub shut : Text → Conn → Conn
shut reason c = record c {
  closed = some reason;
  pending = [];
  answers = all_fail reason c.pending ++ c.answers;
}

-- What readLine and json.Unmarshal give.
pub data Line : Type 0 where
  blank : Line
  message : Message → Line
  bad_json : Text → Line
  read_error : Text → Line
  end_of_file : Line

-- One turn of `readLoop`, which has ended once the connection is closed.
unfoldable pub read_line : Line → Conn → Conn
read_line blank c = c
read_line (message m) c = if is_nil c.closed then dispatch m c else c
read_line (bad_json e) c =
    if is_nil c.closed then shut (bytes "the agent sent invalid JSON: " ++ e) c else c
read_line (read_error e) c = if is_nil c.closed then shut e c else c
read_line end_of_file c =
    if is_nil c.closed then shut (bytes "the agent closed the connection") c else c

-- What the goroutines do: a call begins, its request is not sent, a line is read.
pub data Move : Type 0 where
  begins : Move
  unsent : ℕ → Move
  reads : Line → Move

unfoldable pub move : Move → Conn → Conn
unfolding register withdraw read_line
move begins c = (register c).1
move (unsent n) c = withdraw n c
move (reads l) c = read_line l c

unfoldable pub conn_run : List Move → Conn → Conn
unfolding move
conn_run [] c = c
conn_run (m ∷ ms) c = conn_run ms (move m c)
