-- ===== src/Agent/Sink/Order/Pieces.antt =====
-- internal/agent/acp/sink.go: an agent's output, byte by byte.
use mathlib.Core.List.{append_assoc, append-nil}
use buildbee.Base.{ℕ, ◌≡◌, refl, sym, Option, none, some, List, [], ◌∷◌, ◌++◌, map}
use buildbee.Text.{Text, text_eq}
use buildbee.Agent.Sink.{AgentEvent, only_text, Input, arrives, window_over, Sink, text_event}

-- What an agent's output comes to: the bytes of its text under their kind, one by one, and every
-- other event whole.
pub data Piece : Type 0 where
  byte : Text → ℕ → Piece
  whole : AgentEvent → Piece

abbrev pub bytes_of : Text → Text → List Piece
bytes_of kind t = map (byte kind) t

abbrev pub pieces_as : AgentEvent → Option Text → List Piece
pieces_as ev none = whole ev ∷ []
pieces_as ev (some t) = bytes_of ev.kind t

unfoldable pub pieces : AgentEvent → List Piece
pieces ev = pieces_as ev (only_text ev.payload)

unfoldable pub all_pieces : List AgentEvent → List Piece
all_pieces [] = []
all_pieces (ev ∷ evs) = pieces ev ++ all_pieces evs

unfoldable pub arrivals : List Input → List AgentEvent
arrivals [] = []
arrivals (arrives ev ∷ is) = ev ∷ arrivals is
arrivals (window_over ∷ is) = arrivals is

abbrev pub waiting : Option (Text × Text) → List Piece
waiting none = []
waiting (some (kind, t)) = bytes_of kind t

-- What the sink holds: what it has passed on, and what waits.
abbrev pub holds : Sink → List Piece
holds k = all_pieces k.emitted ++ waiting k.pend

pub all_pieces-snoc :
    (evs : List AgentEvent) (ev : AgentEvent)
    → all_pieces (evs ++ ev ∷ []) ≡ all_pieces evs ++ pieces ev
unfolding all_pieces
all_pieces-snoc [] ev = append-nil (pieces ev)
all_pieces-snoc (e ∷ evs) ev =
    rw (all_pieces-snoc evs ev) (sym (append_assoc (pieces e) (all_pieces evs) (pieces ev)))

pub pieces-text : (kind t : Text) → pieces (text_event kind t) ≡ bytes_of kind t
unfolding pieces only_text text_eq
pieces-text kind t = refl
