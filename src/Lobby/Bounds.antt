-- ===== src/Lobby/Bounds.antt =====
-- What the reads of runtime/lobbyws/ws.go take off the input and the sizes that they let through.
use gensoulkyo.Base.{
  ℕ, zero, suc, ◌≤◌, ◌≡◌, refl, Bool, true, false, List, [], ◌∷◌, ◌-◌, ◌/◌, ◌%◌, not, ◌&&◌, ◌||◌,
  leb, eqb, ltb, if◌then◌else◌, length, arith, inl, inr, Bool-cases,
}
use gensoulkyo.Lobby.Bytes.{
  Read, got, failed, ◌>>=◌, read_full, onto, protocol, read_full-length, big_endian,
}
use gensoulkyo.Lobby.Frames.{
  Header, max_frame_payload, max_message_size, read_frame_header, read_payload, extended_length,
  sized_header, mask_key_of, control_check, unmask,
}
use gensoulkyo.Lobby.Mask.{length-unmask}

-- A read that gives a value leaves at most the bytes it was given.
abbrev Shrinks {ℓ} : {A : Type ℓ} → ℕ → Read A → Type 0
Shrinks n (got a rest) = length rest ≤ n
Shrinks n (failed e) = Unit

onto-Shrinks {ℓ} :
    {A : Type ℓ} (n : ℕ) (x : A) (r : Read (List A)) → Shrinks n r → Shrinks (suc n) (onto x r)
onto-Shrinks n x (got xs rest) h = omega arith
onto-Shrinks n x (failed e) h = tt

bind-Shrinks {ℓ κ} :
    {A : Type ℓ} {B : Type κ} (n : ℕ) (r : Read A) (f : A → List ℕ → Read B)
    → Shrinks n r
    → ((a : A) (rest : List ℕ) → length rest ≤ n → Shrinks n (f a rest))
    → Shrinks n (r >>= f)
bind-Shrinks n (got a rest) f h k = k a rest h
bind-Shrinks n (failed e) f h k = tt

weaken-Shrinks {ℓ} : {A : Type ℓ} (m n : ℕ) (r : Read A) → m ≤ n → Shrinks m r → Shrinks n r
weaken-Shrinks m n (got a rest) le h = omega arith
weaken-Shrinks m n (failed e) le h = tt

read_full-Shrinks : (n : ℕ) (input : List ℕ) → Shrinks (length input) (read_full n input)
unfolding read_full
read_full-Shrinks zero input = omega arith
read_full-Shrinks (suc n) [] = tt
read_full-Shrinks (suc n) (b ∷ input) =
    onto-Shrinks (length input) b (read_full n input) (read_full-Shrinks n input)

extended_length-Shrinks :
    (short : ℕ) (input : List ℕ) → Shrinks (length input) (extended_length short input)
unfolding extended_length
extended_length-Shrinks short input = elim (Bool-cases (eqb short 126)) [
  | inl two ↦ rw two (
      bind-Shrinks (length input) (read_full 2 input) _ (read_full-Shrinks 2 input)
        (λ bytes rest h. h))
  | inr other ↦ elim (Bool-cases (eqb short 127)) [
    | inl eight ↦
        rw (other, eight)
          (bind-Shrinks (length input) (read_full 8 input) _ (read_full-Shrinks 8 input)
            (λ bytes rest h. checked (ltb max_message_size (big_endian 0 bytes)) bytes rest h))
    | inr plain ↦ rw (other, plain) (omega arith)
  ]
]
  where
    checked :
        (large : Bool) (bytes rest : List ℕ)
        → length rest ≤ length input
        → Shrinks (length input) (if large then failed protocol else got (big_endian 0 bytes) rest)
    checked true bytes rest h = tt
    checked false bytes rest h = h

mask_key_of-Shrinks :
    (masked : Bool) (input : List ℕ) → Shrinks (length input) (mask_key_of masked input)
mask_key_of-Shrinks true input = read_full-Shrinks 4 input
mask_key_of-Shrinks false input = omega arith

-- A header within the limits, that left at most `n` bytes.
abbrev pub IsWithin : ℕ → Read Header → Type 0
IsWithin n (got h rest) =
    (length rest ≤ n) × (h.length ≤ max_frame_payload) × (8 ≤ h.opcode → h.length ≤ 125)
IsWithin n (failed e) = Unit

control_check-IsWithin :
    (n : ℕ) (h : Header) (rest : List ℕ)
    → length rest ≤ n
    → h.length ≤ max_frame_payload
    → IsWithin n (control_check h rest)
unfolding control_check
control_check-IsWithin n h rest less small =
    elim (Bool-cases (leb 8 h.opcode && (not h.fin || ltb 125 h.length))) [
      | inl broken ↦ rw broken tt
      | inr fine ↦ rw fine (less, small, λ control. ground (arith, fine))
    ]

sized_header-IsWithin :
    (first second size : ℕ) (input : List ℕ)
    → IsWithin (length input) (sized_header first second size input)
unfolding sized_header
sized_header-IsWithin first second size input = elim (Bool-cases (ltb max_frame_payload size)) [
  | inl large ↦ rw large tt
  | inr small ↦ rw small (
      keyed (leb 128 second) (mask_key_of (leb 128 second) input)
        (mask_key_of-Shrinks (leb 128 second) input) (ground (arith, small)))
]
  where
    keyed :
        (masked : Bool) (r : Read (List ℕ))
        → Shrinks (length input) r
        → size ≤ max_frame_payload
        → IsWithin (length input) (
            r >>= λ key rest.
            control_check
              (record {
                fin = leb 128 first;
                opcode = first % 16;
                masked = masked;
                mask_key = key;
                length = size;
              })
              rest)
    keyed masked (failed e) less small = tt
    keyed masked (got key rest) less small = control_check-IsWithin (length input) _ rest less small

weaken-IsWithin : (m n : ℕ) (r : Read Header) → m ≤ n → IsWithin m r → IsWithin n r
weaken-IsWithin m n (failed e) le h = tt
weaken-IsWithin m n (got h rest) le (less, small, control) = (omega arith, small, control)

sized-IsWithin :
    (first second n : ℕ) (r : Read ℕ)
    → Shrinks n r
    → IsWithin n (r >>= λ size rest. sized_header first second size rest)
sized-IsWithin first second n (failed e) h = tt
sized-IsWithin first second n (got size rest) h =
    weaken-IsWithin (length rest) n (sized_header first second size rest) h
      (sized_header-IsWithin first second size rest)

pub read_frame_header-IsWithin :
    (input : List ℕ) → IsWithin (length input - 2) (read_frame_header input)
unfolding read_frame_header
read_frame_header-IsWithin [] = tt
read_frame_header-IsWithin (first ∷ []) = tt
read_frame_header-IsWithin (first ∷ second ∷ input) = elim (Bool-cases (eqb (first / 16 % 8) 0)) [
  | inl fine ↦ rw fine (
      weaken-IsWithin (length input) (suc (suc (length input)) - 2)
        (extended_length (second % 128) input >>= λ size rest. sized_header first second size rest)
        (omega arith)
        (sized-IsWithin first second (length input) (extended_length (second % 128) input)
          (extended_length-Shrinks (second % 128) input)))
  | inr reserved ↦ rw reserved tt
]

-- A header takes at least two bytes.
pub got-pos :
    (input : List ℕ) (h : Header) (rest : List ℕ)
    → read_frame_header input ≡ got h rest
    → 2 ≤ length input
unfolding read_frame_header
got-pos [] h rest e = cc
got-pos (first ∷ []) h rest e = cc
got-pos (first ∷ second ∷ input) h rest e = omega arith

-- A payload of the size that the header tells.
abbrev pub IsPayload : ℕ → ℕ → Read (List ℕ) → Type 0
IsPayload n size (got bytes rest) = (length rest ≤ n) × (length bytes ≡ size)
IsPayload n size (failed e) = Unit

pub read_payload-IsPayload :
    (h : Header) (rest : List ℕ) → IsPayload (length rest) h.length (read_payload h rest)
unfolding read_payload
read_payload-IsPayload h rest = taken (read_full h.length rest) refl
  where
    taken :
        (r : Read (List ℕ))
        → read_full h.length rest ≡ r
        → IsPayload
            (length rest)
            h.length
            (r >>= λ bytes rest. got (if h.masked then unmask h.mask_key bytes else bytes) rest)
    taken (failed e) eq = tt
    taken (got bytes more) eq =
        let (size, left) = read_full-length h.length rest bytes more eq in
        elim (Bool-cases h.masked) [
          | inl masked ↦
              rw masked (omega (arith, left), omega (arith, size, length-unmask h.mask_key bytes))
          | inr plain ↦ rw plain (omega (arith, left), size)
        ]
