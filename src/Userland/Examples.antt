-- ===== src/Userland/Examples.antt =====
-- base64_encode on a challenge of two bytes, eraseNecessarySpace on the board, and itoa.
use ravens.Base.{◌≡◌, refl, some, [], ◌∷◌, arith}
use ravens.Base.Memory.{fill}
use ravens.Examples.{board, board-IsFlash}
use ravens.Userland.{base64_encode, encode_quads, quad, erase_necessary_space, itoa}
use ravens.Userland.Base64.{decode_quads, take, base64_encode-decode_quads}
use ravens.Userland.Decimal.{Decimal, itoa-Decimal}
use ravens.Userland.Erase.{erase_necessary_space-fill}

-- "aGkA", the padding '=' and the final 0: one character more than the length that is returned.
two_bytes : base64_encode (104 ∷ 105 ∷ []) ≡ (4, 97 ∷ 71 ∷ 107 ∷ 65 ∷ 61 ∷ 0 ∷ [])
unfolding base64_encode encode_quads quad
two_bytes = refl

base64_encode-decode_quads_example :
    decode_quads (take (base64_encode (104 ∷ 105 ∷ [])).0 (base64_encode (104 ∷ 105 ∷ [])).1)
    ≡ some (104 ∷ 105 ∷ 0 ∷ [])
base64_encode-decode_quads_example = base64_encode-decode_quads (104 ∷ 105 ∷ []) (omega arith)

two_blocks :
    erase_necessary_space board (λ _. 0) 0x5000 4097 ≡ some (fill (λ _. 0) 0x5000 8192 0xff)
two_blocks = erase_necessary_space-fill board board-IsFlash (λ _. 0) 0x5000 4097 refl

itoa-Decimal_example : Decimal 1207 4 (λ _. 0) (itoa 1207 4 10 (λ _. 0))
itoa-Decimal_example = itoa-Decimal 1207 4 (λ _. 0) (omega arith)
