-- ===== src/Script/Memory.antt =====
-- The memory of a script's instance, and how numbers lie in it.
use my_polkadot_orcale.Prelude.{
  ℕ, ◌+◌, ◌*◌, ◌≡◌, ◌<◌, Bytes, Option, some, none, List, [], ◌∷◌, length, take, drop, leb, All,
  if◌then◌else◌,
}

-- `wasmtime::Memory` after the call of `process`: its bytes, and `read`, which fails when the place
-- is not within them.
pub record Memory : Type 0 where
  pub memory_data : Bytes
  pub read : ℕ → ℕ → Option Bytes
  pub read_lem :
      (offset n : ℕ)
      → read offset n ≡ (
          if leb (offset + n) (length memory_data)
          then some (take n (drop offset memory_data))
          else none)
  pub bytes_lem : All (λ b. b < 256) memory_data

-- `from_le_bytes`: a number of any width, by its bits.
unfoldable pub from_le_bytes : Bytes → ℕ
from_le_bytes [] = 0
from_le_bytes (b ∷ bs) = b + 256 * from_le_bytes bs

-- The SCALE codec: numbers of a fixed width, given by their bits, and the length of a sequence.
pub record Scale : Type 0 where
  pub encode_bits : ℕ → ℕ → Bytes
  pub encode_compact : ℕ → Bytes
  pub encode_bits-from_le_bytes :
      (bs : Bytes) → All (λ b. b < 256) bs → encode_bits (length bs) (from_le_bytes bs) ≡ bs

-- `chunks_exact(2)` and `u16::from_le_bytes`: a last odd byte is left out.
unfoldable pub utf16_units : Bytes → List ℕ
utf16_units [] = []
utf16_units (low ∷ []) = []
utf16_units (low ∷ high ∷ rest) = (low + 256 * high) ∷ utf16_units rest
