-- ===== src/Lobby/Messages.antt =====
-- ReadMessage of runtime/lobbyws/ws.go: the messages that a connection's frames make up, with the
-- answers to pings.
use gensoulkyo.Base.{
  ℕ, zero, suc, ◌+◌, Bool, true, not, Option, none, some, List, [], ◌++◌, ltb, leb, eqb,
  if◌then◌else◌, length,
}
use gensoulkyo.Lobby.Bytes.{protocol, closed, Read, got, failed}
use gensoulkyo.Lobby.Frames.{Header, max_message_size, read_frame_header, read_payload, write_frame}

-- Conn: whether it is closed, what was written to it, and how often the handler of pongs was called.
pub record Conn : Type 0 where
  pub is_closed : Bool
  pub written : List ℕ
  pub pongs : ℕ

pub record Message : Type 0 where
  pub opcode : ℕ
  pub payload : List ℕ

-- What the loop does after a frame: it goes on with messageOp and payload, or it returns.
pub data Next : Type 0 where
  again : Conn → ℕ → List ℕ → List ℕ → Next
  stop : Conn → Read Message → Next

unfoldable pub ponged : Conn → ℕ → List ℕ → List ℕ → Option (List ℕ) → Next
ponged c op payload rest none = stop c (failed closed)
ponged c op payload rest (some bytes) =
    again (record c { written = c.written ++ bytes }) op payload rest

-- `if header.opcode >= 0x8`, with the payload of the control frame
unfoldable pub control_frame : Conn → ℕ → List ℕ → Header → Read (List ℕ) → Next
control_frame c op payload h (failed e) = stop c (failed e)
control_frame c op payload h (got bytes rest) =
    let heard : Conn = record c { pongs = c.pongs + 1 } in
    if eqb h.opcode 8
    then stop c (got (record { opcode = 8; payload = bytes }) rest)
    else if eqb h.opcode 9
    then ponged heard op payload rest (write_frame c.is_closed 10 bytes true)
    else if eqb h.opcode 10
    then again heard op payload rest
    else stop c (failed protocol)

unfoldable pub append_data : Conn → ℕ → List ℕ → Header → Read (List ℕ) → Next
append_data c op payload h (failed e) = stop c (failed e)
append_data c op payload h (got bytes rest) =
    if ltb max_message_size (length (payload ++ bytes))
    then stop c (failed protocol)
    else if h.fin
    then stop c (got (record { opcode = op; payload = payload ++ bytes }) rest)
    else again c op (payload ++ bytes) rest

-- The order of the opcodes in a fragmented message, and the payload of a data frame.
unfoldable pub data_frame : Conn → ℕ → List ℕ → Header → List ℕ → Next
data_frame c op payload h rest =
    if eqb h.opcode 0
    then if eqb op 0
      then stop c (failed protocol)
      else append_data c op payload h (read_payload h rest)
    else if not (eqb op 0)
    then stop c (failed protocol)
    else append_data c h.opcode payload h (read_payload h rest)

unfoldable pub on_header : Conn → ℕ → List ℕ → Read Header → Next
on_header c op payload (failed e) = stop c (failed e)
on_header c op payload (got h rest) =
    if leb 8 h.opcode
    then control_frame c op payload h (read_payload h rest)
    else data_frame c op payload h rest

-- One round of ReadMessage's loop.
unfoldable pub read_frame : Conn → ℕ → List ℕ → List ℕ → Next
read_frame c op payload input = on_header c op payload (read_frame_header input)

-- The loop on fuel; none where the fuel runs out.
unfoldable pub read_frames : ℕ → Conn → ℕ → List ℕ → List ℕ → Option (Conn × Read Message)
read_frames zero c op payload input = none
read_frames (suc fuel) c op payload input = elim (read_frame c op payload input) [
  | again c' op' payload' rest ↦ read_frames fuel c' op' payload' rest
  | stop c' r ↦ some (c', r)
]

-- ReadMessage: every frame takes at least two bytes of the input.
unfoldable pub read_message : Conn → List ℕ → Option (Conn × Read Message)
read_message c input = read_frames (suc (length input)) c 0 [] input
