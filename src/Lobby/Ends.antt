-- ===== src/Lobby/Ends.antt =====
-- The end of ReadMessage's loop: runtime/lobbyws/ws.go.
use gensoulkyo.Base.{
  ℕ, zero, suc, ◌+◌, ◌-◌, ◌≤◌, ◌<◌, ◌≡◌, refl, not, Option, none, some, List, [], ◌++◌, leb, eqb,
  ltb, length, arith, if_rule,
}
use gensoulkyo.Lobby.Bytes.{Read, got, failed}
use gensoulkyo.Lobby.Frames.{Header, max_message_size, read_frame_header, read_payload, write_frame}
use gensoulkyo.Lobby.Bounds.{
  IsWithin, IsPayload, read_frame_header-IsWithin, read_payload-IsPayload, got-pos,
}
use gensoulkyo.Lobby.Messages.{
  Conn, Message, Next, again, stop, ponged, control_frame, append_data, data_frame, on_header,
  read_frame, read_frames, read_message,
}

-- A message that a read may return.
abbrev pub IsBounded : Read Message → Type 0
IsBounded (got m rest) =
    (length m.payload ≤ max_message_size)
    × (8 ≤ m.opcode → (m.opcode ≡ 8) × (length m.payload ≤ 125))
IsBounded (failed e) = Unit

-- A round that goes on has taken some of the `n` bytes and holds a data opcode.
abbrev IsRound : ℕ → Next → Type 0
IsRound n (again c op payload rest) = (length rest < n) × (op < 8)
IsRound n (stop c r) = IsBounded r

module _ (c : Conn) (op : ℕ) (payload : List ℕ) (n : ℕ) (low : op < 8) (h : Header) where
  control_frame-IsRound :
      (m : ℕ) (r : Read (List ℕ))
      → m < n
      → h.length ≤ 125
      → IsPayload m h.length r
      → IsRound n (control_frame c op payload h r)
  unfolding control_frame ponged write_frame
  control_frame-IsRound m (failed e) less short p = tt
  control_frame-IsRound m (got bytes rest) less short p =
      if_rule (IsRound n) (eqb h.opcode 8)
        (λ e. (omega (arith, p), λ close. (refl, omega (arith, p))))
        (λ e.
          if_rule (IsRound n) (eqb h.opcode 9)
            (λ e.
              if_rule
                (λ out. IsRound n (ponged (record c { pongs = c.pongs + 1 }) op payload rest out))
                c.is_closed (λ e. tt) (λ e. (omega (arith, p), low)))
            (λ e. if_rule (IsRound n) (eqb h.opcode 10) (λ e. (omega (arith, p), low)) (λ e. tt)))

  append_data-IsRound :
      (m o : ℕ) (r : Read (List ℕ))
      → m < n
      → o < 8
      → IsPayload m h.length r
      → IsRound n (append_data c o payload h r)
  unfolding append_data
  append_data-IsRound m o (failed e) less data_op p = tt
  append_data-IsRound m o (got bytes rest) less data_op p =
      if_rule (IsRound n) (ltb max_message_size (length (payload ++ bytes))) (λ e. tt)
        (λ e.
          if_rule (IsRound n) h.fin (λ fin. (ground (arith, e), λ close. absurd (omega arith)))
            (λ more. (omega (arith, p), data_op)))

  data_frame-IsRound :
      (rest : List ℕ) → length rest < n → h.opcode < 8 → IsRound n (data_frame c op payload h rest)
  unfolding data_frame
  data_frame-IsRound rest less data_op =
      let payload_read = read_payload-IsPayload h rest in
      if_rule (IsRound n) (eqb h.opcode 0)
        (λ e.
          if_rule (IsRound n) (eqb op 0) (λ e. tt)
            (λ e. append_data-IsRound (length rest) op (read_payload h rest) less low payload_read))
        (λ e.
          if_rule (IsRound n) (not (eqb op 0)) (λ e. tt)
            (λ e.
              append_data-IsRound (length rest) h.opcode (read_payload h rest) less data_op
                payload_read))

module _ (c : Conn) (op : ℕ) (payload input : List ℕ) (low : op < 8) where
  on_header-IsRound :
      (r : Read Header)
      → read_frame_header input ≡ r
      → IsWithin (length input - 2) r
      → IsRound (length input) (on_header c op payload r)
  unfolding on_header
  on_header-IsRound (failed e) eq within = tt
  on_header-IsRound (got h rest) eq (left, small, control) =
      let some_bytes = got-pos input h rest eq in
      if_rule (IsRound (length input)) (leb 8 h.opcode)
        (λ e.
          control_frame-IsRound c op payload (length input) low h (length rest)
            (read_payload h rest) (omega (arith, left)) (control (ground (arith, e)))
            (read_payload-IsPayload h rest))
        (λ e.
          data_frame-IsRound c op payload (length input) low h rest (omega (arith, left))
            (ground (arith, e)))

  read_frame-IsRound : IsRound (length input) (read_frame c op payload input)
  unfolding read_frame
  read_frame-IsRound =
      on_header-IsRound (read_frame_header input) refl (read_frame_header-IsWithin input)

-- A result of the loop: it ends, with a bounded message or a fault.
abbrev Ends : Option (Conn × Read Message) → Type 0
Ends none = ⊥
Ends (some (c, r)) = IsBounded r

read_frames-Ends :
    (fuel : ℕ) (c : Conn) (op : ℕ) (payload input : List ℕ)
    → length input < fuel
    → op < 8
    → Ends (read_frames fuel c op payload input)
unfolding read_frames
read_frames-Ends zero c op payload input enough low = absurd (omega arith)
read_frames-Ends (suc fuel) c op payload input enough low =
    elim (read_frame c op payload input)
        as (λ out.
          IsRound (length input) out
          → Ends (elim out [
            | again c' op' payload' rest ↦ read_frames fuel c' op' payload' rest
            | stop c' r ↦ some (c', r)
          ])) [
            | again c' op' payload' rest ↦
                λ h. read_frames-Ends fuel c' op' payload' rest (omega (arith, h)) h.1
            | stop c' r ↦ λ h. h
          ]
      (read_frame-IsRound c op payload input low)

Ends-some :
    (o : Option (Conn × Read Message))
    → Ends o
    → (c : Conn) × (r : Read Message) × (o ≡ some (c, r)) × IsBounded r
Ends-some none h = absurd h
Ends-some (some (c, r)) h = (c, r, refl, h)

-- Whatever bytes come in, reading a message ends, with the fuel of one round for each byte: with a
-- fault, with a message of at most 8 MiB, or with a close frame of at most 125 bytes.
pub read_message_ends :
    (c : Conn) (input : List ℕ)
    → (c' : Conn) × (r : Read Message) × (read_message c input ≡ some (c', r)) × IsBounded r
unfolding read_message
read_message_ends c input =
    Ends-some (read_message c input)
      (read_frames-Ends (suc (length input)) c 0 [] input (omega arith) (omega arith))
