-- ===== src/Lobby/Bytes.antt =====
-- Bytes read from a connection, as encoding/binary and io.ReadFull read them for
-- runtime/lobbyws/ws.go. A byte is a number below 256; a connection that has no more bytes fails.
use gensoulkyo.Base.{
  ℕ, zero, suc, ◌+◌, ◌*◌, ◌/◌, ◌%◌, ◌<◌, ◌≡◌, refl, List, [], ◌∷◌, ◌++◌, length, arith,
}

-- What a read meets: the end of the input, or a frame that breaks the protocol.
pub data Fault : Type 0 where
  end_of_input protocol closed : Fault

-- A value and the bytes that are left.
pub data Read {ℓ} (A : Type ℓ) : Type ℓ where
  got : A → List ℕ → Read A
  failed : Fault → Read A

infixl 5 ◌>>=◌
abbrev pub ◌>>=◌ {ℓ κ} : {A : Type ℓ} {B : Type κ} → Read A → (A → List ℕ → Read B) → Read B
got a rest >>= f = f a rest
failed e >>= f = failed e

abbrev pub onto {ℓ} : {A : Type ℓ} → A → Read (List A) → Read (List A)
onto x (got xs rest) = got (x ∷ xs) rest
onto x (failed e) = failed e

-- io.ReadFull
unfoldable pub read_full : ℕ → List ℕ → Read (List ℕ)
read_full zero input = got [] input
read_full (suc n) [] = failed end_of_input
read_full (suc n) (b ∷ input) = onto b (read_full n input)

-- binary.BigEndian.Uint16 and Uint64
unfoldable pub big_endian : ℕ → List ℕ → ℕ
big_endian value [] = value
big_endian value (b ∷ bs) = big_endian (value * 256 + b) bs

-- binary.BigEndian.PutUint64
unfoldable pub put_uint64 : ℕ → List ℕ
put_uint64 n =
    (n / 72057594037927936 % 256)
    ∷ (n / 281474976710656 % 256)
    ∷ (n / 1099511627776 % 256)
    ∷ (n / 4294967296 % 256)
    ∷ (n / 16777216 % 256)
    ∷ (n / 65536 % 256)
    ∷ (n / 256 % 256)
    ∷ (n % 256)
    ∷ []

abbrev pub IsByte : ℕ → Type 0
IsByte b = b < 256

pub read_full-append :
    (bytes rest : List ℕ) → read_full (length bytes) (bytes ++ rest) ≡ got bytes rest
unfolding read_full
read_full-append [] rest = refl
read_full-append (b ∷ bytes) rest = rw (read_full-append bytes rest)

pub big_endian-put_uint64 : (n : ℕ) → n < 18446744073709551616 → big_endian 0 (put_uint64 n) ≡ n
unfolding big_endian put_uint64
big_endian-put_uint64 n h = omega arith

pub onto-got {ℓ} :
    {A : Type ℓ} (x : A) (r : Read (List A)) {all : List A} {rest : List ℕ}
    → onto x r ≡ got all rest
    → (xs : List A) × (r ≡ got xs rest) × (all ≡ x ∷ xs)
onto-got x (got xs rest') h = (xs, cc, cc)
onto-got x (failed e) h = cc

-- A full read takes its bytes off the input and leaves the rest.
pub read_full-length :
    (n : ℕ) (input bytes rest : List ℕ)
    → read_full n input ≡ got bytes rest
    → (length bytes ≡ n) × (length rest + n ≡ length input)
unfolding read_full
read_full-length zero input bytes rest h = ground arith
read_full-length (suc n) [] bytes rest h = cc
read_full-length (suc n) (b ∷ input) bytes rest h =
    let (taken, below, all) = onto-got b (read_full n input) h in
    ground (arith, read_full-length n input taken rest below, all)
