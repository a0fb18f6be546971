-- ===== src/Lobby/Fragments.antt =====
-- Messages that a client sends in fragments, with control frames between them, and what ReadMessage
-- of runtime/lobbyws/ws.go makes of them.
use gensoulkyo.Base.{
  ℕ, zero, suc, ◌+◌, ◌≤◌, ◌<◌, ◌≡◌, refl, ◌∙◌, Bool, true, false, some, List, [], ◌∷◌, ◌++◌,
  append_assoc, All, length, length-append, arith, inl, inr,
}
use gensoulkyo.Lobby.Bytes.{Read, got, IsByte}
use gensoulkyo.Lobby.Frames.{max_frame_payload, max_message_size}
use gensoulkyo.Lobby.Client.{client_frame}
use gensoulkyo.Lobby.Messages.{Conn, Message, again, stop, read_frame, read_frames, read_message}
use gensoulkyo.Lobby.Pieces.{
  Piece, part, ping, pong, sent, whole, heard, IsKey, IsSendable, Follows, ping_read, pong_read,
  data_read,
}

module _ (fuel : ℕ) (c : Conn) (op : ℕ) (payload input : List ℕ) where
  read_frames_stop :
      (c' : Conn) (r : Read Message)
      → read_frame c op payload input ≡ stop c' r
      → read_frames (suc fuel) c op payload input ≡ some (c', r)
  unfolding read_frames
  read_frames_stop c' r h = rw (h, read_frames)

  read_frames_again :
      (c' : Conn) (op' : ℕ) (payload' rest : List ℕ)
      → read_frame c op payload input ≡ again c' op' payload' rest
      → read_frames (suc fuel) c op payload input ≡ read_frames fuel c' op' payload' rest
  unfolding read_frames
  read_frames_again c' op' payload' rest h = rw (h, read_frames)

-- What a message must be to be read whole.
pub record IsMessage (payload : List ℕ) (pieces : List Piece) (key bytes : List ℕ) : Type 0 where
  pub sendable : All IsSendable pieces
  pub is_key : IsKey key
  pub small : All IsByte bytes
  pub fits : length bytes ≤ max_frame_payload
  pub total : length (payload ++ whole pieces bytes) ≤ max_message_size

client_frame-pos : (fin : Bool) (op : ℕ) (k b : List ℕ) → 1 ≤ length (client_frame fin op k b)
unfolding client_frame
client_frame-pos fin op k b = omega arith

-- A message is one still without its first control frame.
without :
    {payload : List ℕ} {piece : Piece} {ps : List Piece} {key bytes : List ℕ}
    → IsMessage payload (piece ∷ ps) key bytes
    → whole (piece ∷ ps) bytes ≡ whole ps bytes
    → IsMessage payload ps key bytes
without {payload} m same = record {
  sendable = m.sendable.1;
  is_key = m.is_key;
  small = m.small;
  fits = m.fits;
  total = rw same at m.total;
}

module _ (o : ℕ) (some_op : 0 < o) (low : o < 8) (key bytes rest : List ℕ) where
  fragments_read :
      (pieces : List Piece) (fuel : ℕ) (c : Conn) (op next : ℕ) (payload : List ℕ)
      → length pieces ≤ fuel
      → c.is_closed ≡ false
      → Follows o op next
      → IsMessage payload pieces key bytes
      → read_frames (suc fuel) c op payload (sent next pieces key bytes ++ rest)
        ≡ some (
          heard c pieces,
          got (record { opcode = o; payload = payload ++ whole pieces bytes }) rest,
        )
  unfolding sent whole heard
  fragments_read [] fuel c op next payload enough open_still follows m =
      read_frames_stop fuel c op payload _ _ _ (
        data_read c op payload key bytes rest m.is_key m.small true o next some_op low follows
          m.fits m.total)
  fragments_read (piece ∷ ps) zero c op next payload enough open_still follows m =
      absurd (omega arith)
  fragments_read (part k b ∷ ps) (suc fuel) c op next payload enough open_still follows m =
      let (is_key, fits, small) = m.sendable.0 in
      let joined : (payload ++ b) ++ whole ps bytes ≡ payload ++ (b ++ whole ps bytes) =
        append_assoc payload b (whole ps bytes) in
      let total : length (payload ++ b) ≤ max_message_size = omega (
        arith,
        m.total,
        length-append payload (b ++ whole ps bytes),
        length-append b (whole ps bytes),
        length-append payload b,
      ) in
      let later : IsMessage (payload ++ b) ps key bytes = record {
        sendable = m.sendable.1;
        is_key = m.is_key;
        small = m.small;
        fits = m.fits;
        total = rw joined m.total;
      } in
      rw (append_assoc (client_frame false next k b) (sent 0 ps key bytes) rest) (
        read_frames_again (suc fuel) c op payload _ _ _ _ _ (
          data_read c op payload k b (sent 0 ps key bytes ++ rest) is_key small false o next some_op
            low follows fits total)
        ∙ rw joined at (
            fragments_read ps fuel c o 0 (payload ++ b) (omega arith) open_still (inr (refl, refl))
              later))
  fragments_read (ping k b ∷ ps) (suc fuel) c op next payload enough open_still follows m =
      let (is_key, short, small) = m.sendable.0 in
      rw (append_assoc (client_frame true 9 k b) (sent next ps key bytes) rest) (
        read_frames_again (suc fuel) c op payload _ _ _ _ _ (
          ping_read c op payload k b (sent next ps key bytes ++ rest) is_key small open_still short)
        ∙ fragments_read ps fuel _ op next payload (omega arith) open_still follows
            (without m refl))
  fragments_read (pong k b ∷ ps) (suc fuel) c op next payload enough open_still follows m =
      let (is_key, short, small) = m.sendable.0 in
      rw (append_assoc (client_frame true 10 k b) (sent next ps key bytes) rest) (
        read_frames_again (suc fuel) c op payload _ _ _ _ _
          (pong_read c op payload k b (sent next ps key bytes ++ rest) is_key small short)
        ∙ fragments_read ps fuel _ op next payload (omega arith) open_still follows
            (without m refl))

  length-append-pos :
      (frame frames : List ℕ)
      → 1 ≤ length frame
      → length (frames ++ rest) + 1 ≤ length ((frame ++ frames) ++ rest)
  length-append-pos frame frames some_bytes = omega (
    arith,
    length-append (frame ++ frames) rest,
    length-append frame frames,
    length-append frames rest,
  )

  length-pieces :
      (pieces : List Piece) (next : ℕ) → length pieces ≤ length (sent next pieces key bytes ++ rest)
  unfolding sent
  length-pieces [] next = omega arith
  length-pieces (part k b ∷ ps) next = omega (
    arith,
    length-pieces ps 0,
    length-append-pos (client_frame false next k b) (sent 0 ps key bytes)
        (client_frame-pos false next k b),
  )
  length-pieces (ping k b ∷ ps) next = omega (
    arith,
    length-pieces ps next,
    length-append-pos (client_frame true 9 k b) (sent next ps key bytes)
        (client_frame-pos true 9 k b),
  )
  length-pieces (pong k b ∷ ps) next = omega (
    arith,
    length-pieces ps next,
    length-append-pos (client_frame true 10 k b) (sent next ps key bytes)
        (client_frame-pos true 10 k b),
  )

  -- A message that a client sends by RFC 6455, in masked fragments with pings and pongs between them,
  -- is read whole: the fragments in order, with the opcode of the first, and what the client sends next is left
  -- unread; every ping is answered by a pong with its bytes. The fragments are within the frame
  -- limit, the message is within the message limit and the connection is open.
  pub fragments_whole :
      (pieces : List Piece) (c : Conn)
      → c.is_closed ≡ false
      → IsMessage [] pieces key bytes
      → read_message c (sent o pieces key bytes ++ rest)
        ≡ some (heard c pieces, got (record { opcode = o; payload = whole pieces bytes }) rest)
  unfolding read_message
  fragments_whole pieces c open_still m =
      fragments_read pieces (length (sent o pieces key bytes ++ rest)) c 0 o []
        (length-pieces pieces o) open_still (inl (refl, refl)) m
