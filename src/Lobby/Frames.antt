-- ===== src/Lobby/Frames.antt =====
-- The frames of RFC 6455 as runtime/lobbyws/ws.go reads and writes them: readFrameHeader, readPayload
-- and writeFrame. The bit fields of a header's bytes are quotients and remainders. A write to a
-- connection that is not closed succeeds.
use Prim.Native.Nat.{bit_xor}
use gensoulkyo.Base.{
  ℕ, ◌+◌, ◌/◌, ◌%◌, Bool, true, false, not, ◌&&◌, ◌||◌, Option, none, some, List, [], ◌∷◌, ◌++◌,
  ltb, leb, eqb, if◌then◌else◌, length,
}
use gensoulkyo.Lobby.Bytes.{
  end_of_input, protocol, Read, got, failed, ◌>>=◌, read_full, big_endian, put_uint64,
}

-- 4 << 20 and 8 << 20
abbrev pub max_frame_payload : ℕ
max_frame_payload = 4194304

abbrev pub max_message_size : ℕ
max_message_size = 8388608

-- frameHeader; the key of a frame that is not masked is empty.
pub record Header : Type 0 where
  pub fin : Bool
  pub opcode : ℕ
  pub masked : Bool
  pub mask_key : List ℕ
  pub length : ℕ

-- `switch length`: the extended length of a frame, from the seven bits of its second byte.
unfoldable pub extended_length : ℕ → List ℕ → Read ℕ
extended_length short input =
    if eqb short 126
    then (read_full 2 input >>= λ bytes rest. got (big_endian 0 bytes) rest)
    else if eqb short 127
    then (read_full 8 input >>= λ bytes rest.
        if ltb max_message_size (big_endian 0 bytes)
        then failed protocol
        else got (big_endian 0 bytes) rest)
    else got short input

abbrev pub mask_key_of : Bool → List ℕ → Read (List ℕ)
mask_key_of true input = read_full 4 input
mask_key_of false input = got [] input

-- The checks of a control frame, the last of readFrameHeader.
unfoldable pub control_check : Header → List ℕ → Read Header
control_check h rest =
    if leb 8 h.opcode && (not h.fin || ltb 125 h.length) then failed protocol else got h rest

-- readFrameHeader, from the length on
unfoldable pub sized_header : ℕ → ℕ → ℕ → List ℕ → Read Header
sized_header first second size input =
    if ltb max_frame_payload size
    then failed protocol
    else mask_key_of (leb 128 second) input >>= λ key rest.
        control_check
          (record {
            fin = leb 128 first;
            opcode = first % 16;
            masked = leb 128 second;
            mask_key = key;
            length = size;
          })
          rest

-- readFrameHeader
unfoldable pub read_frame_header : List ℕ → Read Header
read_frame_header [] = failed end_of_input
read_frame_header (first ∷ []) = failed end_of_input
read_frame_header (first ∷ second ∷ input) =
    if not (eqb (first / 16 % 8) 0)
    then failed protocol
    else extended_length (second % 128) input >>= λ size rest. sized_header first second size rest

-- maskKey[i%4], the key as the bytes that come next
abbrev pub rotated : List ℕ → List ℕ
rotated [] = []
rotated (k ∷ key) = key ++ k ∷ []

abbrev pub key_byte : List ℕ → ℕ
key_byte [] = 0
key_byte (k ∷ key) = k

-- `buf[i] ^= header.maskKey[i%4]`
unfoldable pub unmask : List ℕ → List ℕ → List ℕ
unmask key [] = []
unmask key (b ∷ bytes) = bit_xor b (key_byte key) ∷ unmask (rotated key) bytes

-- readPayload
unfoldable pub read_payload : Header → List ℕ → Read (List ℕ)
read_payload h input = read_full h.length input >>= λ bytes rest.
    got (if h.masked then unmask h.mask_key bytes else bytes) rest

-- The first bytes of a length, in the shortest of the three forms.
unfoldable pub length_bytes : ℕ → List ℕ
length_bytes n =
    if ltb n 126
    then n ∷ []
    else if leb n 65535
    then 126 ∷ (n / 256 % 256) ∷ (n % 256) ∷ []
    else 127 ∷ put_uint64 n

-- writeFrame: the bytes that it writes to a connection, none where that is closed.
unfoldable pub write_frame : Bool → ℕ → List ℕ → Bool → Option (List ℕ)
write_frame closed opcode payload fin =
    if closed
    then none
    else some
        (((opcode % 16 + (if fin then 128 else 0)) ∷ length_bytes (length payload)) ++ payload)
