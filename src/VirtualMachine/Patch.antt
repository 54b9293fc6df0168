-- ===== src/VirtualMachine/Patch.antt =====
-- executeBSDiffPatch of hugin/Scheduler/virtual_machine.cpp.
use ravens.Base.{
  ℕ, zero, suc, ◌+◌, ◌-◌, ◌*◌, ◌%◌, ◌≤◌, ◌<◌, ◌≡◌, refl, ap, ◌∙◌, fun_ext, Bool, true, false, List,
  [], ◌∷◌, ◌++◌, arith, ltb, length, length-append, if◌then◌else◌,
}
use ravens.Base.Memory.{Bytes, blit, shift, of_list}
use ravens.Encoder.{word_mod}
use ravens.Flash.{block_size}
use ravens.VirtualMachine.{plus, is_flash_length}

-- BSDiff: the bytes of its two arrays.
pub record BsDiff : Type 0 where
  pub delta : List ℕ
  pub extra : List ℕ

-- The fields of SchedulerPatch that it reads.
pub record SchedulerPatch : Type 0 where
  pub start_address : ℕ
  pub bsdiff : List BsDiff

-- `currentPos` and the flash.
abbrev pub Cursor : Type 0
Cursor = ℕ × Bytes

-- `flash[currentPos++] = byte`
abbrev pub put : (byte : ℕ) → Cursor → Cursor
put byte (pos, flash) = (plus pos 1, blit flash pos 1 (λ _. byte))

-- The loop over the delta: the byte is read before it is written.
unfoldable pub apply_delta : List ℕ → Cursor → Cursor
apply_delta [] p = p
apply_delta (d ∷ ds) (pos, flash) = apply_delta ds (put ((flash pos + d) % 256) (pos, flash))

-- The loop over the extra bytes.
unfoldable pub apply_extra : List ℕ → Cursor → Cursor
apply_extra [] p = p
apply_extra (x ∷ xs) p = apply_extra xs (put x p)

unfoldable pub apply_patches : List BsDiff → Cursor → Cursor
apply_patches [] p = p
apply_patches (patch ∷ rest) p =
    apply_patches rest (apply_extra patch.extra (apply_delta patch.delta p))

-- executeBSDiffPatch: what it returns, and the flash behind it.
unfoldable pub execute_bsdiff_patch :
    SchedulerPatch → (flash : Bytes) (flash_length : ℕ) → Bool × Bytes
execute_bsdiff_patch commands flash n =
    if is_flash_length n
    then (
      true,
      (apply_patches commands.bsdiff (commands.start_address * block_size % word_mod, flash)).1,
    )
    else (false, flash)

-- The bytes that a delta makes of old ones.
unfoldable pub summed : List ℕ → Bytes → List ℕ
summed [] old = []
summed (d ∷ ds) old = (old 0 + d) % 256 ∷ summed ds (shift old 1)

-- The new bytes, of the old ones as they were before the patch.
unfoldable pub new_bytes : List BsDiff → Bytes → List ℕ
new_bytes [] old = []
new_bytes (patch ∷ rest) old =
    summed patch.delta old
    ++ (patch.extra ++ new_bytes rest (shift old (length patch.delta + length patch.extra)))

blit_nothing : (m : Bytes) (pos : ℕ) (source : Bytes) → m ≡ blit m pos 0 source
unfolding blit
blit_nothing m pos source = fun_ext λ a. ground arith

of_list-append :
    (xs ys : List ℕ) (i : ℕ)
    → of_list (xs ++ ys) i
      ≡ (if ltb i (length xs) then of_list xs i else of_list ys (i - length xs))
of_list-append [] ys i = ground (arith, ap (of_list ys) whole)
  where
    whole : i ≡ i - 0
    whole = omega arith
of_list-append (x ∷ xs) ys zero = ground arith
of_list-append (x ∷ xs) ys (suc i) = ground (arith, of_list-append xs ys i)

blit_append :
    (m : Bytes) (pos : ℕ) (xs ys : List ℕ)
    → blit (blit m pos (length xs) (of_list xs)) (pos + length xs) (length ys) (of_list ys)
      ≡ blit m pos (length (xs ++ ys)) (of_list (xs ++ ys))
unfolding blit
blit_append m pos xs ys = fun_ext λ a. ground (
  arith,
  length-append xs ys,
  of_list-append xs ys (a - pos),
  λ (h : pos + length xs ≤ a). ap (of_list ys) (behind a h),
)
  where
    behind : (a : ℕ) → pos + length xs ≤ a → a - (pos + length xs) ≡ a - pos - length xs
    behind a h = omega arith

-- The loop behind bytes that it wrote from `pos` on.
abbrev wrote : Cursor → List ℕ → Cursor
wrote (pos, flash) bytes = (pos + length bytes, blit flash pos (length bytes) (of_list bytes))

pair_eq : {m n : ℕ} {f g : Bytes} → m ≡ n → f ≡ g → ◌≡◌ {A = Cursor} (m, f) (n, g)
pair_eq e h = rw (e, h) refl

wrote-append : (p : Cursor) (xs ys : List ℕ) → wrote (wrote p xs) ys ≡ wrote p (xs ++ ys)
wrote-append (pos, flash) xs ys = pair_eq further (blit_append flash pos xs ys)
  where
    further : pos + length xs + length ys ≡ pos + length (xs ++ ys)
    further = omega (arith, length-append xs ys)

put-wrote :
    (byte pos : ℕ) (flash : Bytes)
    → pos + 1 < word_mod
    → put byte (pos, flash) ≡ wrote (pos, flash) (byte ∷ [])
unfolding blit
put-wrote byte pos flash small = pair_eq (omega arith) (fun_ext λ a. ground arith)

apply_extra-wrote :
    (xs : List ℕ) (p : Cursor) → p.0 + length xs < word_mod → apply_extra xs p ≡ wrote p xs
unfolding apply_extra
apply_extra-wrote [] (pos, flash) small =
    pair_eq (omega arith) (blit_nothing flash pos (of_list []))
apply_extra-wrote (x ∷ xs) (pos, flash) small = rw (put-wrote x pos flash (omega arith)) (
    apply_extra-wrote xs (wrote (pos, flash) (x ∷ [])) (omega arith)
    ∙ wrote-append (pos, flash) (x ∷ []) xs)

length-summed : (ds : List ℕ) (old : Bytes) → length (summed ds old) ≡ length ds
unfolding summed
length-summed [] old = refl
length-summed (d ∷ ds) old = ap suc (length-summed ds (shift old 1))

-- What is behind the bytes that were written is as it was.
ahead :
    (flash : Bytes) (pos k l : ℕ) (bytes : Bytes)
    → l ≤ k
    → shift (blit flash pos l bytes) (pos + k) ≡ shift (shift flash pos) k
unfolding blit
ahead flash pos k l bytes h = fun_ext λ a. ground (arith, ap flash (same a))
  where
    same : (a : ℕ) → pos + k + a ≡ pos + (k + a)
    same a = omega arith

apply_delta-wrote :
    (ds : List ℕ) (p : Cursor)
    → p.0 + length ds < word_mod
    → apply_delta ds p ≡ wrote p (summed ds (shift p.1 p.0))
unfolding apply_delta summed
apply_delta-wrote [] (pos, flash) small =
    pair_eq (omega arith) (blit_nothing flash pos (of_list []))
apply_delta-wrote (d ∷ ds) (pos, flash) small =
    let byte = (flash pos + d) % 256 in
    let later = summed ds (shift (shift flash pos) 1) in
    let ih : apply_delta ds (wrote (pos, flash) (byte ∷ []))
        ≡ wrote (wrote (pos, flash) (byte ∷ [])) later =
      rw (ahead flash pos 1 1 (of_list (byte ∷ [])) (omega arith)) at
        (apply_delta-wrote ds (wrote (pos, flash) (byte ∷ [])) (omega arith)) in
    rw (put-wrote byte pos flash (omega arith), ih, wrote-append (pos, flash) (byte ∷ []) later)
      (ap (λ at. wrote (pos, flash) ((flash at + d) % 256 ∷ later)) here)
  where
    here : pos ≡ pos + 0
    here = omega arith

ahead_of_both :
    (flash : Bytes) (pos k l count : ℕ) (f g : Bytes)
    → k + l ≡ count
    → shift (blit (blit flash pos k f) (pos + k) l g) (pos + k + l) ≡ shift (shift flash pos) count
unfolding blit
ahead_of_both flash pos k l count f g h = fun_ext λ a. ground (arith, ap flash (same a))
  where
    same : (a : ℕ) → pos + k + l + a ≡ pos + (count + a)
    same a = omega (arith, h)

abbrev pub total : List BsDiff → ℕ
total [] = 0
total (patch ∷ rest) = length patch.delta + length patch.extra + total rest

length-new_bytes :
    (patches : List BsDiff) (old : Bytes) → length (new_bytes patches old) ≡ total patches
unfolding new_bytes
length-new_bytes [] old = refl
length-new_bytes (patch ∷ rest) old =
    let later = new_bytes rest (shift old (length patch.delta + length patch.extra)) in
    omega (
      arith,
      length-append (summed patch.delta old) (patch.extra ++ later),
      length-append patch.extra later,
      length-summed patch.delta old,
      length-new_bytes rest (shift old (length patch.delta + length patch.extra)),
    )

apply_patches-wrote :
    (patches : List BsDiff) (p : Cursor)
    → p.0 + total patches < word_mod
    → apply_patches patches p ≡ wrote p (new_bytes patches (shift p.1 p.0))
unfolding apply_patches new_bytes
apply_patches-wrote [] (pos, flash) small =
    pair_eq (omega arith) (blit_nothing flash pos (of_list []))
apply_patches-wrote (patch ∷ rest) (pos, flash) small =
    let old = shift flash pos in
    let delta = summed patch.delta old in
    let count = length patch.delta + length patch.extra in
    let first = wrote (pos, flash) delta in
    let counted = length-summed patch.delta old in
    rw
      (
        apply_delta-wrote patch.delta (pos, flash) (omega arith),
        apply_extra-wrote patch.extra first (omega (arith, counted)),
        apply_patches-wrote rest (wrote first patch.extra) (omega (arith, counted)),
      )
      (rw
        (
          ahead_of_both flash pos (length delta) (length patch.extra) count (of_list delta)
              (of_list patch.extra) (omega (arith, counted)),
          wrote-append first patch.extra (new_bytes rest (shift old count)),
          wrote-append (pos, flash) delta (patch.extra ++ new_bytes rest (shift old count)),
        )
        refl)

-- On a flash of whole blocks, executeBSDiffPatch returns true and replaces the bytes from the start
-- address on by those that the deltas, added to the old bytes at their place, and the extra bytes
-- make, although it works in place; it changes no other byte. The patch ends inside the flash.
pub execute_bsdiff_patch-new_bytes :
    (patch : SchedulerPatch) (flash : Bytes) (n : ℕ)
    → is_flash_length n ≡ true
    → n < word_mod
    → patch.start_address * block_size + total patch.bsdiff ≤ n
    → execute_bsdiff_patch patch flash n ≡ (
      true,
      (let start = patch.start_address * block_size in
          let bytes = new_bytes patch.bsdiff (shift flash start) in
          blit flash start (length bytes) (of_list bytes)),
    )
unfolding execute_bsdiff_patch
execute_bsdiff_patch-new_bytes patch flash n blocks small fits =
    let start = patch.start_address * block_size in
    let aligned : start % word_mod ≡ start = omega arith in
    rw (blocks, aligned, apply_patches-wrote patch.bsdiff (start, flash) (omega arith)) refl
