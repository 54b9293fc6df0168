-- ===== src/Userland.antt =====
-- munin/Userland/userland_utils.c, what the download of an update is built on.
pub mod Base64
pub mod Erase
pub mod Digits
pub mod Decimal
mod Examples
use ravens.Base.{
  ◌==◌, ℕ, zero, suc, ◌+◌, ◌-◌, ◌*◌, ◌/◌, ◌%◌, ◌^◌, Bool, Option, none, some, List, [], ◌∷◌, ◌++◌,
  ltb, length, if◌then◌else◌,
}
use ravens.Base.Memory.{Bytes, blit}
use ravens.Base.Maybe.{◌>>=◌}
use ravens.Flash.{block_size, erase_page}
use ravens.Platform.{Platform}

-- `encoding_table`, as the codes of its characters.
abbrev pub encoding_table : ℕ → ℕ
encoding_table i =
    if ltb i 26
    then i + 65
    else if ltb i 52
    then i + 71
    else if ltb i 62
    then i - 4
    else if ltb i 63
    then 43
    else 45

-- `mod_table`
abbrev pub mod_table : ℕ → ℕ
mod_table i = if ltb 0 i then 3 - i else 0

-- The four characters of three bytes.
unfoldable pub quad : (byte_a byte_b byte_c : ℕ) → List ℕ
quad byte_a byte_b byte_c =
    let triple = byte_a * 2 ^ 16 + byte_b * 2 ^ 8 + byte_c in
    encoding_table (triple / 2 ^ 18 % 64)
    ∷ encoding_table (triple / 2 ^ 12 % 64)
    ∷ encoding_table (triple / 2 ^ 6 % 64)
    ∷ encoding_table (triple % 64)
    ∷ []

-- The first loop of base64_encode: bytes behind the data are 0.
unfoldable pub encode_quads : List ℕ → List ℕ
encode_quads [] = []
encode_quads (a ∷ []) = quad a 0 0
encode_quads (a ∷ (b ∷ [])) = quad a b 0
encode_quads (a ∷ (b ∷ (c ∷ rest))) = quad a b c ++ encode_quads rest

-- The second loop, of '='.
abbrev pub padding : ℕ → List ℕ
padding zero = []
padding (suc n) = 61 ∷ padding n

-- base64_encode: the length that it returns, and the characters that it writes, with the final 0.
unfoldable pub base64_encode : List ℕ → ℕ × List ℕ
base64_encode bytes = (
  4 * ((length bytes + 2) / 3),
  encode_quads bytes ++ (padding (mod_table (length bytes % 3)) ++ (0 ∷ [])),
)

-- eraseNecessarySpace: the loop has fuel for each block.
unfoldable pub erase_loop : (fuel : ℕ) → Platform → Bytes → (base_pointer length : ℕ) → Option Bytes
erase_loop zero p nand base length = erase_page p nand base
erase_loop (suc fuel) p nand base length =
    if ltb block_size length
    then (do
      erased ← erase_page p nand base
      erase_loop fuel p erased (base + block_size) (length - block_size))
    else erase_page p nand base

unfoldable pub erase_necessary_space : Platform → Bytes → (base_pointer length : ℕ) → Option Bytes
erase_necessary_space p nand base length = erase_loop (length / block_size) p nand base length

-- The first loop of itoa: the digits, the least significant one first, and the pointer behind them.
unfoldable pub digit_loop : (fuel base value string : ℕ) → Bytes → ℕ × Bytes
digit_loop zero base value string m = (string, m)
digit_loop (suc fuel) base value string m =
    let next = value / base in
    let written = blit m string 1 (λ _. 48 + (value - next * base)) in
    let rest = digit_loop fuel base next (string + 1) written in
    if next == 0 then (string + 1, written) else rest

-- The second loop: the digits change places from both ends.
unfoldable pub swap_loop : (fuel base_string string : ℕ) → Bytes → Bytes
swap_loop zero base_string string m = m
swap_loop (suc fuel) base_string string m =
    let swapped = blit (blit m string 1 (λ _. m base_string)) base_string 1 (λ _. m string) in
    let rest = swap_loop fuel (base_string + 1) (string - 1) swapped in
    if ltb base_string string then rest else m

-- itoa, for a base from 2 to 10: a word of 32 bits has at most 32 digits.
unfoldable pub itoa : (value string base : ℕ) → Bytes → Bytes
itoa value string base m =
    let (end, written) = digit_loop 32 base value string m in
    swap_loop 32 string (end - 1) (blit written end 1 (λ _. 0))
