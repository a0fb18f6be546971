-- ===== src/Lobby/Tests.antt =====
-- Runs of the websocket frames of runtime/lobbyws.
use gensoulkyo.Base.{◌≡◌, refl, arith, ℕ, false, some, List, [], ◌∷◌, ◌++◌}
use gensoulkyo.Lobby.Bytes.{Read, got}
use gensoulkyo.Lobby.Messages.{Conn, Message, read_message}
use gensoulkyo.Lobby.Fragments.{fragments_whole}
use gensoulkyo.Lobby.Pieces.{Piece, part, ping, sent, whole, heard, IsKey}
use gensoulkyo.Lobby.Ends.{IsBounded, read_message_ends}

abbrev open_conn : Conn
open_conn = record { is_closed = false; written = []; pongs = 0 }

abbrev mask : List ℕ
mask = 7 ∷ 11 ∷ 13 ∷ 17 ∷ []

mask-IsKey : IsKey mask
mask-IsKey = (refl, (omega arith, (omega arith, (omega arith, (omega arith, tt)))))

-- A text in two fragments, with a ping between them.
abbrev pieces : List Piece
pieces = part mask (104 ∷ 101 ∷ []) ∷ ping mask (1 ∷ []) ∷ []

fragments_whole_example :
    read_message open_conn (sent 1 pieces mask (121 ∷ []) ++ 5 ∷ [])
    ≡ some (
      heard open_conn pieces,
      got (record { opcode = 1; payload = whole pieces (121 ∷ []) }) (5 ∷ []),
    )
unfolding whole
fragments_whole_example =
    fragments_whole 1 (omega arith) (omega arith) mask (121 ∷ []) (5 ∷ []) pieces open_conn refl
      (record {
        sendable = (
          (mask-IsKey, omega arith, (omega arith, (omega arith, tt))),
          ((mask-IsKey, omega arith, (omega arith, tt)), tt),
        );
        is_key = mask-IsKey;
        small = (omega arith, tt);
        fits = omega arith;
        total = omega arith;
      })

read_message_ends_example :
    (c' : Conn) × (r : Read Message) × (read_message open_conn (137 ∷ 0 ∷ 129 ∷ []) ≡ some (c', r))
    × IsBounded r
read_message_ends_example = read_message_ends open_conn (137 ∷ 0 ∷ 129 ∷ [])
