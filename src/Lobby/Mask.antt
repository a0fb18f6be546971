-- ===== src/Lobby/Mask.antt =====
-- The mask of a client's frame, as runtime/lobbyws/ws.go takes it off: the exclusive or with a key.
use Prim.Native.Nat.{bit_xor}
use gensoulkyo.Base.{
  ℕ, zero, suc, ◌<◌, ◌≡◌, refl, Bool, true, false, List, [], ◌∷◌, All, All-snoc, eqb, length, arith,
  if◌then◌else◌,
}
use gensoulkyo.Lobby.Bytes.{IsByte}
use gensoulkyo.Lobby.Frames.{unmask, rotated, key_byte}

-- Whether a test holds of every number below a bound.
every : ℕ → (ℕ → Bool) → Bool
every zero test = true
every (suc n) test = let rest = every n test in if test n then rest else false

every-lt : (n k : ℕ) (test : ℕ → Bool) → k < n → every n test ≡ true → test k ≡ true
unfolding every
every-lt zero k test small held = elim small [ ]
every-lt (suc n) k test small held = ground (arith, every-lt n k test)

xor_table : every 256 (λ b. every 256 (λ k. eqb (bit_xor (bit_xor b k) k) b)) ≡ true
unfolding every
xor_table = refl

xor_twice : (b k : ℕ) → IsByte b → IsByte k → bit_xor (bit_xor b k) k ≡ b
xor_twice b k small key =
    let row =
      every-lt 256 b (λ b. every 256 (λ k. eqb (bit_xor (bit_xor b k) k) b)) small xor_table in
    let entry : eqb (bit_xor (bit_xor b k) k) b ≡ true =
      every-lt 256 k (λ k. eqb (bit_xor (bit_xor b k) k) b) key row in
    ground (arith, entry)

All-rotated : (key : List ℕ) → All IsByte key → All IsByte (rotated key)
All-rotated [] h = tt
All-rotated (k ∷ key) h = All-snoc IsByte key k h.1 h.0

key_byte-IsByte : (key : List ℕ) → All IsByte key → IsByte (key_byte key)
key_byte-IsByte [] h = omega arith
key_byte-IsByte (k ∷ key) h = h.0

-- A mask taken off twice leaves the bytes as they were.
pub unmask_twice :
    (key bytes : List ℕ) → All IsByte key → All IsByte bytes → unmask key (unmask key bytes) ≡ bytes
unfolding unmask
unmask_twice key [] h small = refl
unmask_twice key (b ∷ bytes) h small = cc (
  xor_twice b (key_byte key) small.0 (key_byte-IsByte key h),
  unmask_twice (rotated key) bytes (All-rotated key h) small.1,
)

pub length-unmask : (key bytes : List ℕ) → length (unmask key bytes) ≡ length bytes
unfolding unmask
length-unmask key [] = refl
length-unmask key (b ∷ bytes) = omega (arith, length-unmask (rotated key) bytes)
