-- ===== src/Script/Url.antt =====
-- The loop of `wasmtime_runner` that reads the URL of a script from its memory
-- (script-executor/src/runtime.rs).
use my_polkadot_orcale.Prelude.{
  ℕ, zero, suc, ◌+◌, ◌*◌, ◌≤◌, ◌<◌, ◌≡◌, refl, sym, Bytes, List, [], ◌∷◌, length, drop, map, ltb,
  leb, nat_beq, ◌&&◌, if◌then◌else◌, arith, All, Bool-cases, ltb→lt, inl, inr,
}
use my_polkadot_orcale.Script.Memory.{utf16_units}
use my_polkadot_orcale.Script.Output.{before_zero}

-- `memory_data[i]`; the guard of the loop keeps the index in range.
abbrev pub byte_at : Bytes → ℕ → ℕ
byte_at [] i = 0
byte_at (b ∷ bs) zero = b
byte_at (b ∷ bs) (suc i) = byte_at bs i

-- `char::from_u32(code).unwrap_or('?')` of a 16-bit code: a surrogate is no character.
abbrev pub char_of : ℕ → ℕ
char_of code = if leb 55296 code && leb code 57343 then 63 else code

-- The loop: two bytes a turn, up to two zero bytes or the end of the memory.
unfoldable pub url_loop : ℕ → Bytes → ℕ → List ℕ
url_loop zero bytes i = []
url_loop (suc fuel) bytes i =
    let rest = url_loop fuel bytes (suc (suc i)) in
    let low = byte_at bytes i in
    let high = byte_at bytes (suc i) in
    if ltb (suc i) (length bytes)
    then (if nat_beq low 0 && nat_beq high 0 then [] else char_of (low + 256 * high) ∷ rest)
    else []

-- A turn moves two bytes on, so there are fewer turns than bytes.
unfoldable pub read_url : Bytes → ℕ → List ℕ
unfolding url_loop
read_url bytes url = url_loop (length bytes) bytes url

drop-suc : (n : ℕ) (xs : Bytes) → n < length xs → drop n xs ≡ byte_at xs n ∷ drop (suc n) xs
drop-suc n [] h = absurd (omega arith)
drop-suc zero (x ∷ xs) h = refl
drop-suc (suc n) (x ∷ xs) h = drop-suc n xs (omega arith)

drop-end : (n : ℕ) (xs : Bytes) → length xs ≤ n → drop n xs ≡ []
drop-end zero [] h = refl
drop-end zero (x ∷ xs) h = absurd (omega arith)
drop-end (suc n) [] h = refl
drop-end (suc n) (x ∷ xs) h = drop-end n xs (omega arith)

-- The independent description: the 16-bit units from the place on, up to the first zero.
abbrev pub url_text : Bytes → ℕ → List ℕ
url_text bytes url = map char_of (before_zero (utf16_units (drop url bytes)))

before_zero-end :
    (i : ℕ) (bytes : Bytes) → length bytes ≤ suc i → before_zero (utf16_units (drop i bytes)) ≡ []
unfolding before_zero utf16_units
before_zero-end zero [] h = refl
before_zero-end zero (a ∷ []) h = refl
before_zero-end zero (a ∷ b ∷ rest) h = absurd (omega arith)
before_zero-end (suc i) [] h = refl
before_zero-end (suc i) (a ∷ rest) h = before_zero-end i rest (omega arith)

before_zero-next :
    (i : ℕ) (bytes : Bytes)
    → suc i < length bytes
    → All (λ b. b < 256) bytes
    → url_text bytes i ≡ (
        if nat_beq (byte_at bytes i) 0 && nat_beq (byte_at bytes (suc i)) 0
        then []
        else char_of (byte_at bytes i + 256 * byte_at bytes (suc i)) ∷ url_text bytes (suc (suc i)))
unfolding before_zero utf16_units
before_zero-next zero [] h k = absurd (omega arith)
before_zero-next zero (a ∷ []) h k = absurd (omega arith)
before_zero-next zero (a ∷ b ∷ rest) h k = ground arith
before_zero-next (suc i) [] h k = absurd (omega arith)
before_zero-next (suc i) (a ∷ rest) h k = before_zero-next i rest (omega arith) k.1

url_loop-url_text :
    (fuel : ℕ) (bytes : Bytes) (i : ℕ)
    → All (λ b. b < 256) bytes
    → length bytes ≤ i + fuel
    → url_loop fuel bytes i ≡ url_text bytes i
unfolding url_loop
url_loop-url_text zero bytes i k h = rw (before_zero-end i bytes (omega arith)) refl
url_loop-url_text (suc fuel) bytes i k h = elim (Bool-cases (ltb (suc i) (length bytes))) [
  | inl e ↦
      let more = url_loop-url_text fuel bytes (suc (suc i)) k (omega arith) in
      let next = before_zero-next i bytes (ltb→lt _ _ e) k in rw e (rw more (sym next))
  | inr e ↦ rw e (rw (before_zero-end i bytes (ground arith)) refl)
]

-- The loop ends by itself, and reads the text of 16-bit units from the place on, up to the first
-- zero unit or the end of the memory, with `?` for a surrogate.
pub read_url_lem :
    (bytes : Bytes) (url : ℕ) → All (λ b. b < 256) bytes → read_url bytes url ≡ url_text bytes url
unfolding read_url
read_url_lem bytes url k = url_loop-url_text (length bytes) bytes url k (omega arith)
