-- ===== src/Lobby/Pieces.antt =====
-- The frames that make up a message which a client sends in fragments, and the round of ReadMessage of
-- runtime/lobbyws/ws.go that reads each of them.
use gensoulkyo.Base.{
  ℕ, ◌+◌, ◌≤◌, ◌<◌, ◌≡◌, refl, Bool, true, false, List, [], ◌∷◌, ◌++◌, All, leb, ltb, if◌then◌else◌,
  length, arith, ◌⊎◌, inl, inr,
}
use gensoulkyo.Lobby.Bytes.{got, IsByte}
use gensoulkyo.Lobby.Frames.{max_frame_payload, max_message_size, length_bytes, write_frame}
use gensoulkyo.Lobby.Client.{client_frame, client_header, Passes, client_header_lem, client_payload}
use gensoulkyo.Lobby.Messages.{
  Conn, again, stop, ponged, control_frame, append_data, data_frame, on_header, read_frame,
}

-- A frame before the last one: a fragment, or a control frame that comes between.
pub data Piece : Type 0 where
  part ping pong : List ℕ → List ℕ → Piece

-- The frames of a message whose next fragment has the opcode `next`, up to its last fragment.
unfoldable pub sent : ℕ → List Piece → List ℕ → List ℕ → List ℕ
sent next [] key bytes = client_frame true next key bytes
sent next (part k b ∷ ps) key bytes = client_frame false next k b ++ sent 0 ps key bytes
sent next (ping k b ∷ ps) key bytes = client_frame true 9 k b ++ sent next ps key bytes
sent next (pong k b ∷ ps) key bytes = client_frame true 10 k b ++ sent next ps key bytes

-- The payload of the message.
unfoldable pub whole : List Piece → List ℕ → List ℕ
whole [] bytes = bytes
whole (part k b ∷ ps) bytes = b ++ whole ps bytes
whole (ping k b ∷ ps) bytes = whole ps bytes
whole (pong k b ∷ ps) bytes = whole ps bytes

-- What the connection has written and heard after the pieces: every ping is answered by a pong frame
-- that carries its bytes.
unfoldable pub heard : Conn → List Piece → Conn
heard c [] = c
heard c (part k b ∷ ps) = heard c ps
heard c (ping k b ∷ ps) =
    heard
      (record c {
        written = c.written ++ ((138 ∷ length_bytes (length b)) ++ b);
        pongs = c.pongs + 1;
      })
      ps
heard c (pong k b ∷ ps) = heard (record c { pongs = c.pongs + 1 }) ps

abbrev pub IsKey : List ℕ → Type 0
IsKey key = (length key ≡ 4) × All IsByte key

abbrev pub IsSendable : Piece → Type 0
IsSendable (part k b) = IsKey k × (length b ≤ max_frame_payload) × All IsByte b
IsSendable (ping k b) = IsKey k × (length b ≤ 125) × All IsByte b
IsSendable (pong k b) = IsKey k × (length b ≤ 125) × All IsByte b

-- The opcode that the loop holds and the one of the next fragment, of a message of the opcode `o`.
abbrev pub Follows : ℕ → ℕ → ℕ → Type 0
Follows o op next = ((op ≡ 0) × (next ≡ o)) ⊎ ((op ≡ o) × (next ≡ 0))

module _ (c : Conn) (op : ℕ) (payload key bytes rest : List ℕ) (is_key : IsKey key)
    (small : All IsByte bytes) where
  control_read :
      (opcode : ℕ)
      → 8 ≤ opcode
      → opcode < 16
      → length bytes ≤ 125
      → read_frame c op payload (client_frame true opcode key bytes ++ rest)
        ≡ control_frame c op payload (client_header true opcode key (length bytes)) (got bytes rest)
  unfolding read_frame on_header
  control_read opcode high known short =
      let p : Passes true opcode key (length bytes) = record {
        known = known;
        four = is_key.0;
        small = omega arith;
        control = inr (refl, short);
      } in
      let is_control : leb 8 opcode ≡ true = ground arith in
      rw (
        client_header_lem true opcode key bytes rest p,
        is_control,
        client_payload true opcode key bytes rest is_key.1 small,
      )

  pub ping_read :
      c.is_closed ≡ false
      → length bytes ≤ 125
      → read_frame c op payload (client_frame true 9 key bytes ++ rest)
        ≡ again
            (record c {
              written = c.written ++ ((138 ∷ length_bytes (length bytes)) ++ bytes);
              pongs = c.pongs + 1;
            })
            op
            payload
            rest
  unfolding control_frame ponged write_frame
  ping_read open_still short = rw (control_read 9 (omega arith) (omega arith) short, open_still)

  pub pong_read :
      length bytes ≤ 125
      → read_frame c op payload (client_frame true 10 key bytes ++ rest)
        ≡ again (record c { pongs = c.pongs + 1 }) op payload rest
  unfolding control_frame
  pong_read short = rw (control_read 10 (omega arith) (omega arith) short)

  pub data_read :
      (fin : Bool) (o next : ℕ)
      → 0 < o
      → o < 8
      → Follows o op next
      → length bytes ≤ max_frame_payload
      → length (payload ++ bytes) ≤ max_message_size
      → read_frame c op payload (client_frame fin next key bytes ++ rest) ≡ (
          if fin
          then stop c (got (record { opcode = o; payload = payload ++ bytes }) rest)
          else again c o (payload ++ bytes) rest)
  unfolding read_frame on_header data_frame append_data
  data_read fin o next some_op low follows fits total =
      let p : Passes fin next key (length bytes) = record {
        known = ground arith;
        four = is_key.0;
        small = fits;
        control = inl (ground arith);
      } in
      let is_data : leb 8 next ≡ false = ground arith in
      let within : ltb max_message_size (length (payload ++ bytes)) ≡ false = ground arith in
      rw
        (
          client_header_lem fin next key bytes rest p,
          is_data,
          client_payload fin next key bytes rest is_key.1 small,
          within,
        )
        (ground arith)
