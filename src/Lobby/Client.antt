-- ===== src/Lobby/Client.antt =====
-- The frames that a client sends by RFC 6455, and how runtime/lobbyws/ws.go reads them.
use gensoulkyo.Base.{
  ℕ, ◌+◌, ◌*◌, ◌/◌, ◌%◌, ◌≤◌, ◌<◌, ◌≡◌, ap, ◌∙◌, Bool, true, false, List, [], ◌∷◌, ◌++◌,
  append_assoc, All, ltb, leb, if◌then◌else◌, length, arith, Bool-cases, ◌⊎◌, inl, inr,
}
use gensoulkyo.Lobby.Bytes.{
  got, read_full, big_endian, put_uint64, IsByte, read_full-append, big_endian-put_uint64,
}
use gensoulkyo.Lobby.Frames.{
  Header, max_frame_payload, max_message_size, extended_length, control_check, sized_header,
  read_frame_header, unmask, read_payload,
}
use gensoulkyo.Lobby.Mask.{unmask_twice, length-unmask}

-- The length field with the mask bit.
abbrev pub masked_length : ℕ → List ℕ
masked_length n =
    if ltb n 126
    then (n + 128) ∷ []
    else if leb n 65535
    then 254 ∷ (n / 256 % 256) ∷ (n % 256) ∷ []
    else 255 ∷ put_uint64 n

-- A frame of a client: the first byte, the length, the key and the masked payload.
unfoldable pub client_frame : Bool → ℕ → List ℕ → List ℕ → List ℕ
client_frame fin opcode key payload =
    ((opcode + (if fin then 128 else 0)) ∷ masked_length (length payload))
    ++ (key ++ unmask key payload)

abbrev pub client_header : Bool → ℕ → List ℕ → ℕ → Header
client_header fin opcode key size = record {
  fin = fin;
  opcode = opcode;
  masked = true;
  mask_key = key;
  length = size;
}

-- What a frame must be to pass: four key bytes, a payload within the limit, and for a control
-- frame 125 bytes at most and no fragmentation.
pub record Passes (fin : Bool) (opcode : ℕ) (key : List ℕ) (size : ℕ) : Type 0 where
  pub known : opcode < 16
  pub four : length key ≡ 4
  pub small : size ≤ max_frame_payload
  pub control : (opcode < 8) ⊎ ((fin ≡ true) × (size ≤ 125))

one_byte : (size : ℕ) (rest : List ℕ) → size < 126 → extended_length size rest ≡ got size rest
unfolding extended_length
one_byte size rest h = ground arith

eight_read :
    (size : ℕ) (rest : List ℕ) → read_full 8 (put_uint64 size ++ rest) ≡ got (put_uint64 size) rest
unfolding put_uint64
eight_read size rest = unfold put_uint64 in read_full-append (put_uint64 size) rest

two_bytes :
    (size : ℕ) (rest : List ℕ)
    → size ≤ 65535
    → extended_length 126 ((size / 256 % 256) ∷ (size % 256) ∷ rest) ≡ got size rest
unfolding extended_length read_full big_endian
two_bytes size rest h =
    let value : (0 + size / 256 % 256) * 256 + size % 256 ≡ size = omega arith in rw value

eight_bytes :
    (size : ℕ) (rest : List ℕ)
    → size ≤ max_frame_payload
    → extended_length 127 (put_uint64 size ++ rest) ≡ got size rest
unfolding extended_length
eight_bytes size rest h =
    let value : big_endian 0 (put_uint64 size) ≡ size = big_endian-put_uint64 size (omega arith) in
    let fits : ltb max_message_size size ≡ false = ground arith in
    let read : read_full 8 (put_uint64 size ++ rest) ≡ got (put_uint64 size) rest =
      eight_read size rest in
    rw (read, value, fits)

module _ (fin : Bool) (opcode : ℕ) (key : List ℕ) (size : ℕ) (p : Passes fin opcode key size) where
  control_check_lem :
      (rest : List ℕ)
      → control_check (client_header fin opcode key size) rest
        ≡ got (client_header fin opcode key size) rest
  unfolding control_check
  control_check_lem rest = ground (arith, p)

  top_bit : leb 128 (opcode + (if fin then 128 else 0)) ≡ fin
  top_bit = ground (arith, p)

  low_bits : (opcode + (if fin then 128 else 0)) % 16 ≡ opcode
  low_bits = ground (arith, p)

  no_reserved_bit : (opcode + (if fin then 128 else 0)) / 16 % 8 ≡ 0
  no_reserved_bit = ground (arith, p)

  sized_header_lem :
      (second : ℕ) (rest : List ℕ)
      → 128 ≤ second
      → sized_header (opcode + (if fin then 128 else 0)) second size (key ++ rest)
        ≡ got (client_header fin opcode key size) rest
  unfolding sized_header
  sized_header_lem second rest masked =
      let within : ltb max_frame_payload size ≡ false = ground (arith, p) in
      let has_mask : leb 128 second ≡ true = ground arith in
      let key_read : read_full 4 (key ++ rest) ≡ got key rest =
        rw p.four at (read_full-append key rest) in
      rw (within, has_mask, key_read, top_bit, low_bits) (control_check_lem rest)

  header_lem :
      (rest : List ℕ)
      → read_frame_header
          (((opcode + (if fin then 128 else 0)) ∷ masked_length size) ++ (key ++ rest))
        ≡ got (client_header fin opcode key size) rest
  unfolding read_frame_header
  header_lem rest = elim (Bool-cases (ltb size 126)) [
    | inl short ↦
        let same : (size + 128) % 128 ≡ size = ground arith in
        rw (short, no_reserved_bit, same, one_byte size (key ++ rest) (ground arith))
          (sized_header_lem (size + 128) rest (omega arith))
    | inr long ↦ elim (Bool-cases (leb size 65535)) [
      | inl two ↦
          rw (long, two, no_reserved_bit, two_bytes size (key ++ rest) (ground arith))
            (sized_header_lem 254 rest (omega arith))
      | inr many ↦
          rw (long, many, no_reserved_bit, eight_bytes size (key ++ rest) p.small)
            (sized_header_lem 255 rest (omega arith))
    ]
  ]

pub client_payload :
    (fin : Bool) (opcode : ℕ) (key bytes rest : List ℕ)
    → All IsByte key
    → All IsByte bytes
    → read_payload (client_header fin opcode key (length bytes)) (unmask key bytes ++ rest)
      ≡ got bytes rest
unfolding read_payload
client_payload fin opcode key bytes rest small_key small =
    let read : read_full (length bytes) (unmask key bytes ++ rest) ≡ got (unmask key bytes) rest =
      rw (length-unmask key bytes) at (read_full-append (unmask key bytes) rest) in
    rw (read, unmask_twice key bytes small_key small)

-- The header and the payload of a client's frame are read as they were sent.
pub client_header_lem :
    (fin : Bool) (opcode : ℕ) (key bytes rest : List ℕ)
    → Passes fin opcode key (length bytes)
    → read_frame_header (client_frame fin opcode key bytes ++ rest)
      ≡ got (client_header fin opcode key (length bytes)) (unmask key bytes ++ rest)
unfolding client_frame
client_header_lem fin opcode key bytes rest p =
    let front = (opcode + (if fin then 128 else 0)) ∷ masked_length (length bytes) in
    let split : (front ++ (key ++ unmask key bytes)) ++ rest
        ≡ front ++ (key ++ (unmask key bytes ++ rest)) =
      simp append_assoc in
    ap read_frame_header split
    ∙ header_lem fin opcode key (length bytes) p (unmask key bytes ++ rest)
