-- ===== src/Prelude/Chunks.antt =====
-- `slice.chunks(n)`: the list cut into pieces of `n` bytes, the last one perhaps shorter.
use Prim.Native.Nat.{ℕ, zero, suc, ◌≤◌}
use Prim.Native.Char.{code}
use Prim.Native.String.{String}
use mathlib.Core.Path.{◌≡◌, refl, ap}
use mathlib.Core.List.{List, [], ◌∷◌, ◌++◌, flatten}
use native.Mathlib.Omega.{arith}
use my_polkadot_orcale.Prelude.Lists.{
  length, take, drop, length-drop, length-append, take-append, drop-append, All,
}

-- The bytes of an ASCII text, such as a key written `b".."`.
abbrev pub codes : String → List ℕ
codes String.[] = []
codes (String.◌∷◌ c s) = code c ∷ codes s

-- The list has at most `fuel` pieces left.
pub chunks_from : ℕ → ℕ → List ℕ → List (List ℕ)
chunks_from zero n xs = []
chunks_from (suc fuel) n [] = []
chunks_from (suc fuel) n (x ∷ xs) = take n (x ∷ xs) ∷ chunks_from fuel n (drop n (x ∷ xs))

unfoldable pub chunks : ℕ → List ℕ → List (List ℕ)
unfolding chunks_from
chunks n xs = chunks_from (length xs) n xs

take-append-drop : (n : ℕ) (xs : List ℕ) → take n xs ++ drop n xs ≡ xs
take-append-drop zero xs = refl
take-append-drop (suc n) [] = refl
take-append-drop (suc n) (x ∷ xs) = ap (λ (t : List ℕ). x ∷ t) (take-append-drop n xs)

flatten-chunks_from :
    (fuel n : ℕ) (xs : List ℕ) → length xs ≤ fuel → flatten (chunks_from fuel (suc n) xs) ≡ xs
unfolding chunks_from flatten
flatten-chunks_from zero n [] h = refl
flatten-chunks_from zero n (x ∷ xs) h = absurd (omega arith)
flatten-chunks_from (suc fuel) n [] h = refl
flatten-chunks_from (suc fuel) n (x ∷ xs) h =
    rw (flatten-chunks_from fuel n (drop n xs) (omega (arith, length-drop n xs)))
      (take-append-drop (suc n) (x ∷ xs))

-- Cutting loses nothing: the pieces in order are the list, so the fuel is enough.
pub flatten-chunks : (n : ℕ) (xs : List ℕ) → flatten (chunks (suc n) xs) ≡ xs
unfolding chunks
flatten-chunks n xs = flatten-chunks_from (length xs) n xs (omega arith)

-- Pieces of the full size.
abbrev pub HaveLength : ℕ → List (List ℕ) → Type 0
HaveLength n = All (λ p. length p ≡ n)

take-append_of : {n : ℕ} (xs ys : List ℕ) → length xs ≡ n → take n (xs ++ ys) ≡ xs
take-append_of xs ys e = rw (← e) (take-append xs ys)

drop-append_of : {n : ℕ} (xs ys : List ℕ) → length xs ≡ n → drop n (xs ++ ys) ≡ ys
drop-append_of xs ys e = rw (← e) (drop-append xs ys)

chunks_from-flatten :
    (fuel n : ℕ) (ps : List (List ℕ))
    → HaveLength (suc n) ps
    → length (flatten ps) ≤ fuel
    → chunks_from fuel (suc n) (flatten ps) ≡ ps
unfolding chunks_from flatten
chunks_from-flatten zero n [] h l = refl
chunks_from-flatten (suc fuel) n [] h l = refl
chunks_from-flatten fuel n ([] ∷ ps) h l = absurd (omega (arith, h.0))
chunks_from-flatten zero n ((x ∷ p) ∷ ps) h l = absurd (omega arith)
chunks_from-flatten (suc fuel) n ((x ∷ p) ∷ ps) h l =
    let e : length p ≡ n = omega (arith, h.0) in
    rw (take-append_of p (flatten ps) e, drop-append_of p (flatten ps) e)
      (ap (λ (t : List (List ℕ)). (x ∷ p) ∷ t)
        (chunks_from-flatten fuel n ps h.1 (omega (arith, length-append p (flatten ps)))))

-- Pieces of one size put together are cut into the same pieces.
pub chunks-flatten :
    (n : ℕ) (ps : List (List ℕ)) → HaveLength (suc n) ps → chunks (suc n) (flatten ps) ≡ ps
unfolding chunks
chunks-flatten n ps h = chunks_from-flatten (length (flatten ps)) n ps h (omega arith)
