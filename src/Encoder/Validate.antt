-- ===== src/Encoder/Validate.antt =====
-- validate of hugin/Scheduler/Encoding/encoder.cpp.
use ravens.Base.{
  ℕ, zero, suc, ◌^◌, ◌<◌, ◌≡◌, ◌≢◌, refl, sym, ap, ◌∙◌, inl, inr, Bool-cases, true, false, not,
  some, List, [], ◌∷◌, arith, ◌==◌, length, if◌then◌else◌,
}
use ravens.Base.Maybe.{Option-cases, some_injective, none-some}
use ravens.Encoder.{Instr, PublicCommand}
use ravens.Encoder.Encodable.{Encodable}
use ravens.Encoder.RoundTrip.{decode-encode}
use ravens.Encoder.Stream.{
  encode, decode, instr_number, same_command, same_commands, start_context, validate,
}

same_command_refl : (c : PublicCommand) → same_command c c ≡ true
unfolding same_command
same_command_refl c = ground arith

same_commands_refl : (commands : List PublicCommand) → same_commands commands commands ≡ true
unfolding same_commands
same_commands_refl [] = refl
same_commands_refl (c ∷ rest) = rw (same_command_refl c) (same_commands_refl rest)

-- validate returns the length of the stream of every sequence that can be expressed.
pub validate-Encodable :
    (commands : List PublicCommand)
    → Encodable start_context commands
    → length commands < 2 ^ 25
    → (bytes : List ℕ) × (encode commands ≡ some bytes) × (validate commands ≡ some (length bytes))
unfolding validate
validate-Encodable commands h short =
    let (bytes, encoded, decoded) = decode-encode commands h short in
    (bytes, encoded, rw (encoded, decoded, same_commands_refl commands) (ground arith))

abbrev instr_at : List Instr → ℕ → Instr
instr_at [] i = Instr.end_of_stream
instr_at (x ∷ xs) zero = x
instr_at (x ∷ xs) (suc i) = instr_at xs i

abbrev instr_of : ℕ → Instr
instr_of i =
    instr_at
      (Instr.erase ∷ Instr.commit ∷ Instr.flush_and_partial_commit ∷ Instr.load_and_flush
        ∷ Instr.copy ∷ Instr.chained_copy ∷ Instr.chained_copy_skip ∷ Instr.use_block
        ∷ Instr.release_block ∷ Instr.rebase ∷ [])
      i

instr_of-number : (i : Instr) → instr_of (instr_number i) ≡ i
instr_of-number Instr.erase = refl
instr_of-number Instr.commit = refl
instr_of-number Instr.flush_and_partial_commit = refl
instr_of-number Instr.load_and_flush = refl
instr_of-number Instr.copy = refl
instr_of-number Instr.chained_copy = refl
instr_of-number Instr.chained_copy_skip = refl
instr_of-number Instr.use_block = refl
instr_of-number Instr.release_block = refl
instr_of-number Instr.rebase = refl
instr_of-number Instr.end_of_stream = refl

pub instr_number_injective : (i j : Instr) → instr_number i ≡ instr_number j → i ≡ j
instr_number_injective i j e = sym (instr_of-number i) ∙ ap instr_of e ∙ instr_of-number j

command_ext :
    {i j : Instr} {m n s t l k : ℕ}
    → i ≡ j
    → m ≡ n
    → s ≡ t
    → l ≡ k
    → ◌≡◌ {A = PublicCommand}
        (record { command = i; main_address = m; secondary_address = s; length = l })
        (record { command = j; main_address = n; secondary_address = t; length = k })
command_ext e f g h = rw (e, f, g, h) refl

same_command-eq : (c d : PublicCommand) → same_command c d ≡ true → c ≡ d
unfolding same_command
same_command-eq c d h =
    command_ext (instr_number_injective c.command d.command (ground (arith, h))) (ground (arith, h))
      (ground (arith, h)) (ground (arith, h))

same_commands-eq :
    (commands more : List PublicCommand)
    → length commands ≡ length more
    → same_commands commands more ≡ true
    → commands ≡ more
unfolding same_commands
same_commands-eq [] [] len h = refl
same_commands-eq [] (d ∷ more) len h = absurd (omega arith)
same_commands-eq (c ∷ rest) [] len h = absurd (omega arith)
same_commands-eq (c ∷ rest) (d ∷ more) len h = elim (Bool-cases (same_command c d)) [
  | inl same ↦
      ap (λ (x : PublicCommand). x ∷ rest) (same_command-eq c d same)
      ∙ ap (λ (l : List PublicCommand). d ∷ l)
          (same_commands-eq rest more (omega arith) (simp same at h))
  | inr other ↦ absurd (let e : false ≡ true = simp other at h in cc)
]

abbrev verdict : (commands new_commands : List PublicCommand) → ℕ → ℕ
verdict commands new_commands n =
    if not (length commands == length new_commands)
    then 0
    else if same_commands commands new_commands
    then n
    else 0

verdict-same :
    (commands more : List PublicCommand) (k n : ℕ)
    → verdict commands more k ≡ n
    → n ≢ 0
    → (k ≡ n) × (commands ≡ more)
verdict-same commands more k n e some_n = elim (Bool-cases (same_commands commands more)) [
  | inl same ↦ (ground arith, same_commands-eq commands more (ground arith) same)
  | inr other ↦ absurd (some_n (ground arith))
]

-- Whenever validate returns a length other than 0, the bytes of encode have that length, and decode
-- makes exactly the same commands of them.
pub validate_sound :
    (commands : List PublicCommand) (n : ℕ)
    → validate commands ≡ some n
    → n ≢ 0
    → (bytes : List ℕ) × (encode commands ≡ some bytes)
      × (length bytes ≡ n)
      × (decode bytes ≡ some commands)
unfolding validate
validate_sound commands n h some_n = elim (Option-cases (encode commands)) [
  | inl failed ↦ absurd (none-some (simp failed at h))
  | inr (bytes, encoded) ↦ elim (Option-cases (decode bytes)) [
    | inl failed ↦ absurd (none-some (simp (encoded, failed) at h))
    | inr (more, decoded) ↦
        let e : some (verdict commands more (length bytes)) ≡ some n =
          simp (encoded, decoded) at h in
        let (same_length, same) =
          verdict-same commands more (length bytes) n (some_injective e) some_n in
        (bytes, encoded, same_length, decoded ∙ ap (λ (l : List PublicCommand). some l) (sym same))
  ]
]
