-- ===== src/Core/Chance.antt =====
-- The deterministic chance of runtime/core: shortHash, deterministicUnit and what is drawn from it.
-- The digest of SHA-256 in hexadecimal is a parameter.
use gensoulkyo.Base.{
  ℕ, zero, suc, ◌-◌, ◌%◌, String, str_append, len, Option, none, some, List, [], ◌∷◌, hex_number,
  decimal, leb, if◌then◌else◌, length,
}
use Prim.Native.String.{slice}
use gensoulkyo.Core.Float.{scale}

abbrev pub get_elem? {ℓ} : {A : Type ℓ} → List A → ℕ → Option A
get_elem? [] i = none
get_elem? (x ∷ xs) zero = some x
get_elem? (x ∷ xs) (suc i) = get_elem? xs i

module _ (sha256_hex : String → String) where
  -- shortHash: the first four bytes of the digest.
  unfoldable pub short_hash : String → String
  short_hash text =
      let digest = sha256_hex text in if leb (len digest) 8 then digest else slice digest 0 8

  -- deterministicUnit, as a number of ten-thousandths.
  unfoldable pub deterministic_unit : ℕ → ℕ → String → ℕ → ℕ
  unfolding short_hash
  deterministic_unit seed tick pattern_id index =
      hex_number 0 (
        short_hash (
          str_append (decimal seed) (
            str_append ":" (
              str_append (decimal tick)
                (str_append ":" (str_append pattern_id (str_append ":" (decimal index))))))))
      % 10000

  -- The entry that a draw over a list of candidates takes, none where there is no candidate.
  unfoldable pub pick {ℓ} : {A : Type ℓ} → List A → ℕ → ℕ → String → Option A
  pick candidates seed tick pattern_id =
      let n = length candidates in
      let offset = scale (deterministic_unit seed tick pattern_id 0) n in
      get_elem? candidates (if leb n offset then n - 1 else offset)
