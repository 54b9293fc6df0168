-- ===== src/Userland/Base64.antt =====
-- base64_encode of munin/Userland/userland_utils.c.
use ravens.Base.{
  ℕ, zero, suc, ◌+◌, ◌-◌, ◌*◌, ◌/◌, ◌%◌, ◌^◌, ◌<◌, ◌≡◌, refl, ap, List, [], ◌∷◌, ◌++◌, arith, ◌==◌,
  leb, ◌&&◌, Option, none, some, length, if◌then◌else◌,
}
use ravens.Base.Maybe.{◌>>=◌}
use ravens.Base.Memory.{AllBytes}
use ravens.Userland.{encoding_table, mod_table, quad, encode_quads, padding, base64_encode}

-- The place of a character among 'A' to 'Z', 'a' to 'z', '0' to '9', '+' and '-'.
abbrev pub sextet : ℕ → Option ℕ
sextet c =
    if leb 65 c && leb c 90
    then some (c - 65)
    else if leb 97 c && leb c 122
    then some (c - 71)
    else if leb 48 c && leb c 57
    then some (c + 4)
    else if c == 43
    then some 62
    else if c == 45
    then some 63
    else none

pub sextet-encoding_table : (i : ℕ) → i < 64 → sextet (encoding_table i) ≡ some i
sextet-encoding_table i h = ground arith

-- The bytes of a text of whole groups of four characters of the alphabet.
unfoldable pub decode_quads : List ℕ → Option (List ℕ)
decode_quads [] = some []
decode_quads (p ∷ (q ∷ (r ∷ (s ∷ rest)))) = do
  first ← sextet p
  second ← sextet q
  third ← sextet r
  last ← sextet s
  let triple = first * 2 ^ 18 + second * 2 ^ 12 + third * 2 ^ 6 + last
  bytes ← decode_quads rest
  some (triple / 2 ^ 16 ∷ triple / 2 ^ 8 % 2 ^ 8 ∷ triple % 2 ^ 8 ∷ bytes)
decode_quads _ = none

-- A number of 24 bits is put together from its sextets.
sextets :
    (t : ℕ)
    → t < 2 ^ 24
    → t / 2 ^ 18 % 64 * 2 ^ 18 + t / 2 ^ 12 % 64 * 2 ^ 12 + t / 2 ^ 6 % 64 * 2 ^ 6 + t % 64 ≡ t
sextets t h = omega arith

decode_quads-quad :
    (a b c : ℕ) (rest bytes : List ℕ)
    → a < 256
    → b < 256
    → c < 256
    → decode_quads rest ≡ some bytes
    → decode_quads (quad a b c ++ rest) ≡ some (a ∷ b ∷ c ∷ bytes)
unfolding decode_quads quad
decode_quads-quad a b c rest bytes ha hb hc h =
    let t = a * 2 ^ 16 + b * 2 ^ 8 + c in
    let first : t / 2 ^ 16 ≡ a = omega arith in
    let second : t / 2 ^ 8 % 2 ^ 8 ≡ b = omega arith in
    let third : t % 2 ^ 8 ≡ c = omega arith in
    rw
      (
        sextet-encoding_table (t / 2 ^ 18 % 64) (omega arith),
        sextet-encoding_table (t / 2 ^ 12 % 64) (omega arith),
        sextet-encoding_table (t / 2 ^ 6 % 64) (omega arith),
        sextet-encoding_table (t % 64) (omega arith),
        h,
        sextets t (omega arith),
        first,
        second,
        third,
      )
      refl

-- Zeros up to a whole number of three bytes.
abbrev pub filled : List ℕ → List ℕ
filled [] = []
filled (a ∷ []) = a ∷ 0 ∷ 0 ∷ []
filled (a ∷ (b ∷ [])) = a ∷ b ∷ 0 ∷ []
filled (a ∷ (b ∷ (c ∷ rest))) = a ∷ b ∷ c ∷ filled rest

decode_quads-encode_quads :
    (bytes : List ℕ) → AllBytes bytes → decode_quads (encode_quads bytes) ≡ some (filled bytes)
unfolding encode_quads decode_quads quad
decode_quads-encode_quads [] h = refl
decode_quads-encode_quads (a ∷ []) h =
    decode_quads-quad a 0 0 [] [] h.0 (omega arith) (omega arith) refl
decode_quads-encode_quads (a ∷ (b ∷ [])) h =
    decode_quads-quad a b 0 [] [] h.0 h.1.0 (omega arith) refl
decode_quads-encode_quads (a ∷ (b ∷ (c ∷ rest))) h =
    decode_quads-quad a b c (encode_quads rest) (filled rest) h.0 h.1.0 h.1.1.0
      (decode_quads-encode_quads rest h.1.1.1)

length-encode_quads : (bytes : List ℕ) → length (encode_quads bytes) ≡ 4 * ((length bytes + 2) / 3)
unfolding encode_quads quad
length-encode_quads [] = omega arith
length-encode_quads (a ∷ []) = omega arith
length-encode_quads (a ∷ (b ∷ [])) = omega arith
length-encode_quads (a ∷ (b ∷ (c ∷ rest))) = omega (arith, length-encode_quads rest)

-- The first elements.
abbrev pub take : ℕ → List ℕ → List ℕ
take zero xs = []
take (suc n) [] = []
take (suc n) (x ∷ xs) = x ∷ take n xs

take-append : (xs ys : List ℕ) → take (length xs) (xs ++ ys) ≡ xs
take-append [] ys = refl
take-append (x ∷ xs) ys = ap (λ (l : List ℕ). x ∷ l) (take-append xs ys)

-- The characters of base64_encode up to the length that it returns are the data, with zeros up to a
-- whole number of three bytes, in groups of four characters: each is one of 'A' to 'Z', 'a' to 'z',
-- '0' to '9', '+' and '-', and stands for its place among these 64.
pub base64_encode-decode_quads :
    (bytes : List ℕ)
    → AllBytes bytes
    → decode_quads (take (base64_encode bytes).0 (base64_encode bytes).1) ≡ some (filled bytes)
unfolding base64_encode
base64_encode-decode_quads bytes h =
    rw
      (
        ← length-encode_quads bytes,
        take-append (encode_quads bytes) (padding (mod_table (length bytes % 3)) ++ (0 ∷ [])),
      )
      (decode_quads-encode_quads bytes h)
