-- ===== src/Delta/InPage.antt =====
-- The offsets of applyDeltaPatch stay in their page and in their subsegment.
use ravens.Base.{
  ℕ, zero, suc, ◌+◌, ◌*◌, ◌/◌, ◌%◌, ◌≤◌, ◌<◌, ◌≡◌, refl, subst, ◌∙◌, inl, inr, Bool-cases, Bool,
  ◌==◌, leb, ltb, if◌then◌else◌, arith,
}
use ravens.Counter.{increment_counter}
use ravens.Delta.{consume_byte, consume_dword, consume_qword, add_byte_to_output_buffer}
use ravens.Delta.Patch.{
  Patch, p_resuming, increment, start_page, put_byte, patch_byte, patch_head, patch_qword,
  patch_qwords, patch_tail, patch_bytes, round_length, next_length, next_subsegment, end_subsegment,
  end_page, patch_round,
}
use ravens.Device.{Device, Run, ok, cut, fault, Fault, M, and_then, pure}
use ravens.Platform.{Platform}

-- What holds of the value of a run, where it ends well.
pub data Keeps {A : Type 0} (P : A → Type 0) : Run A → Type 0 where
  kept : {a : A} {d : Device} → P a → Keeps P (ok a d)
  failed : {f : Fault} → Keeps P (fault f)
  lost : {d : Device} → Keeps P (cut d)

bind :
    {A B : Type 0} {P : A → Type 0} {Q : B → Type 0} {r : Run A} {k : A → M B}
    → Keeps P r
    → ((a : A) (d : Device) → P a → Keeps Q (k a d))
    → Keeps Q (and_then r k)
bind (kept h) next = next _ _ h
bind failed next = failed
bind lost next = lost

mono : {A : Type 0} {P Q : A → Type 0} {r : Run A} → Keeps P r → ((a : A) → P a → Q a) → Keeps Q r
mono (kept h) f = kept (f _ h)
mono failed f = failed
mono lost f = lost

anything : {A : Type 0} (r : Run A) → Keeps (λ a. Unit) r
anything (ok a d) = kept tt
anything (fault f) = failed
anything (cut d) = lost

-- After any run of the first part.
after :
    {A B : Type 0} {Q : B → Type 0} {k : A → M B} (r : Run A)
    → ((a : A) (d : Device) → Keeps Q (k a d))
    → Keeps Q (and_then r k)
after r next = bind (anything r) (λ a d h. next a d)

-- The offset has gone on by `n`, in the same subsegment.
record Moved (s : Patch) (n : ℕ) (t : Patch) : Type 0 where
  offset : t.output_offset ≡ s.output_offset + n
  segment : t.segment_offset ≡ s.segment_offset
  subsegment : t.subsegment_length ≡ s.subsegment_length
  counter : t.write_counter < 8

-- The offsets in the page and in the subsegment, and the bytes that wait in the buffer.
pub record InPage (s : Patch) : Type 0 where
  pub page : s.output_offset ≤ 4096
  pub subsegment : s.segment_offset ≤ s.subsegment_length
  pub counter : s.write_counter < 8

Moved-InPage : (s t : Patch) → InPage s → Moved s 0 t → InPage t
Moved-InPage s t inside moved = record {
  page = omega (arith, inside.page, moved.offset);
  subsegment = omega (arith, inside.subsegment, moved.segment, moved.subsegment);
  counter = moved.counter;
}

module _ (p : Platform) (dry_run : Bool) (page previous : ℕ) where
  add_byte-lt :
      (byte address counter : ℕ) (d : Device)
      → counter < 8
      → Keeps (λ (n : ℕ). n < 8) (add_byte_to_output_buffer p byte address counter d)
  unfolding add_byte_to_output_buffer
  add_byte-lt byte address counter d h = elim (Bool-cases (leb 8 counter)) [
    | inl full ↦ absurd (ground (arith, full))
    | inr room ↦ simp room (elim (Bool-cases (counter == 7)) [
      | inl last ↦ simp last (after _ λ u e. kept (omega arith))
      | inr more ↦ simp more (kept (ground (arith, more)))
    ])
  ]

  counter-lt :
      (byte : ℕ) (s : Patch) (d : Device)
      → s.write_counter < 8
      → Keeps
          (λ (counter : ℕ). counter < 8)
          ((if s.resuming
              then pure s.write_counter
              else add_byte_to_output_buffer p byte (page + s.output_offset) s.write_counter)
            d)
  counter-lt byte s d h = elim (Bool-cases s.resuming) [
    | inl on ↦ simp on (kept h)
    | inr off ↦ simp off (add_byte-lt byte (page + s.output_offset) s.write_counter d h)
  ]

  put_byte-Moved :
      (byte : ℕ) (s : Patch) (d : Device)
      → s.write_counter < 8
      → Keeps (Moved s 1) (put_byte p dry_run page previous byte s d)
  unfolding put_byte
  put_byte-Moved byte s d h = bind (counter-lt byte s d h) λ counter e lt.
      kept (record { offset = refl; segment = refl; subsegment = refl; counter = lt })

  -- Two moves in a row.
  Moved-add : (s t u : Patch) (m n : ℕ) → Moved s m t → Moved t n u → Moved s (m + n) u
  Moved-add s t u m n first second = record {
    offset = omega (arith, first.offset, second.offset);
    segment = second.segment ∙ first.segment;
    subsegment = second.subsegment ∙ first.subsegment;
    counter = second.counter;
  }

  stays : (s : Patch) → s.write_counter < 8 → Moved s 0 s
  stays s h = record { offset = omega arith; segment = refl; subsegment = refl; counter = h }

  patch_byte-Moved :
      (s : Patch) (d : Device)
      → s.write_counter < 8
      → Keeps (Moved s 1) (patch_byte p dry_run page previous s d)
  unfolding patch_byte
  patch_byte-Moved s d h = after (consume_byte s.context d) λ out e.
      mono (put_byte-Moved _ (record s { context = out.1 }) e h) λ t moved. record {
        offset = moved.offset;
        segment = moved.segment;
        subsegment = moved.subsegment;
        counter = moved.counter;
      }

  patch_qword-Moved :
      (s : Patch) (d : Device)
      → s.write_counter < 8
      → Keeps (Moved s 8) (patch_qword p dry_run page previous s d)
  unfolding patch_qword
  patch_qword-Moved s d h = after (consume_qword s.context d) λ out e.
      after _ λ u f. kept (record { offset = refl; segment = refl; subsegment = refl; counter = h })

  patch_tail-Moved :
      (left : ℕ) (s : Patch) (d : Device)
      → s.write_counter < 8
      → Keeps (Moved s left) (patch_tail p dry_run page previous left s d)
  unfolding patch_tail
  patch_tail-Moved zero s d h = kept (stays s h)
  patch_tail-Moved (suc left) s d h = bind (patch_byte-Moved s d h) λ t e moved.
      mono (patch_tail-Moved left t e moved.counter)
        λ u more. subst (λ (n : ℕ). Moved s n u) (omega arith) (Moved-add s t u 1 left moved more)

  patch_qwords-Moved :
      (rounds : ℕ) (s : Patch) (d : Device)
      → s.write_counter < 8
      → Keeps (Moved s (8 * rounds)) (patch_qwords p dry_run page previous rounds s d)
  unfolding patch_qwords
  patch_qwords-Moved zero s d h = kept (stays s h)
  patch_qwords-Moved (suc rounds) s d h = bind (patch_qword-Moved s d h) λ t e moved.
      mono (patch_qwords-Moved rounds t e moved.counter) λ u more.
        subst (λ (n : ℕ). Moved s n u) (omega arith) (Moved-add s t u 8 (8 * rounds) moved more)

  -- The first loop, and what it leaves.
  patch_head-Moved :
      (left : ℕ) (s : Patch) (d : Device)
      → s.write_counter < 8
      → Keeps
          (λ (out : Patch × ℕ). (n : ℕ) × Moved s n out.0 × (n + out.1 ≡ left))
          (patch_head p dry_run page previous left s d)
  unfolding patch_head
  patch_head-Moved zero s d h = kept (0, stays s h, refl)
  patch_head-Moved (suc left) s d h = elim (Bool-cases (s.output_offset % 8 == 0)) [
    | inl aligned ↦ simp aligned (kept (0, stays s h, omega arith))
    | inr misaligned ↦ simp misaligned (
        bind (patch_byte-Moved s d h) λ t e moved.
          mono (patch_head-Moved left t e moved.counter)
            λ out (n, more, sum). (1 + n, Moved-add s t out.0 1 n moved more, omega (arith, sum)))
  ]

  patch_bytes-Moved :
      (left : ℕ) (s : Patch) (d : Device)
      → s.write_counter < 8
      → Keeps (Moved s left) (patch_bytes p dry_run page previous left s d)
  unfolding patch_bytes
  patch_bytes-Moved left s d h = bind (patch_head-Moved left s d h) λ out e (n, moved, sum).
      bind (patch_qwords-Moved (out.1 / 8) out.0 e moved.counter) λ t f more.
        mono (patch_tail-Moved (out.1 % 8) t f more.counter) λ u rest.
          subst (λ (k : ℕ). Moved s k u) (omega (arith, sum))
            (Moved-add s t u (n + 8 * (out.1 / 8)) (out.1 % 8)
              (Moved-add s out.0 t n (8 * (out.1 / 8)) moved more) rest)

  increment-Moved :
      (s : Patch) (d : Device)
      → s.write_counter < 8
      → Keeps (Moved s 0) (increment p dry_run page previous s d)
  unfolding increment
  increment-Moved s d h =
      after (increment_counter p s.trace previous (p_resuming dry_run s) d) λ out e.
        kept (record { offset = omega arith; segment = refl; subsegment = refl; counter = h })

  start_page-InPage :
      (s : Patch) (d : Device) → InPage s → Keeps InPage (start_page p dry_run page previous s d)
  unfolding start_page
  start_page-InPage s d inside = elim (Bool-cases s.have_cached_page) [
    | inl cached ↦ simp cached (kept inside)
    | inr fresh ↦ simp fresh (
        bind {P = Moved s 0} (even d) λ s1 e first. after _ λ u f.
          bind (increment-Moved s1 f first.counter) λ s2 g second. after _ λ v k. kept (record {
            page = omega arith;
            subsegment = omega (
              arith, inside.subsegment, first.segment, first.subsegment, second.segment,
              second.subsegment,
            );
            counter = second.counter;
          }))
  ]
    where
      even :
          (d : Device)
          → Keeps
              (Moved s 0)
              ((if s.trace % 2 == 0 then increment p dry_run page previous s else pure s) d)
      even d = elim (Bool-cases (s.trace % 2 == 0)) [
        | inl is_even ↦ simp is_even (increment-Moved s d inside.counter)
        | inr is_odd ↦ simp is_odd (kept (stays s inside.counter))
      ]

  end_subsegment-InPage :
      (segments : ℕ) (s : Patch) (d : Device)
      → InPage s
      → Keeps InPage (end_subsegment p dry_run page previous segments s d)
  unfolding end_subsegment next_length
  end_subsegment-InPage segments s d inside =
      elim (Bool-cases (s.segment_offset == s.subsegment_length)) [
        | inr within ↦ simp within (kept inside)
        | inl ended ↦
            simp ended
              (elim (Bool-cases
                (ltb (next_subsegment p dry_run page previous s).segment segments)) [
                  | inl more ↦ simp more (
                      after (consume_dword s.context d) λ out e. kept (record {
                        page = inside.page;
                        subsegment = omega arith;
                        counter = inside.counter;
                      }))
                  | inr last ↦ simp last (
                      kept (record {
                        page = inside.page;
                        subsegment = omega arith;
                        counter = inside.counter;
                      }))
                ])
      ]

  end_page-InPage :
      (s : Patch) (d : Device) → InPage s → Keeps InPage (end_page p dry_run page previous s d)
  unfolding end_page
  end_page-InPage s d inside = elim (Bool-cases (s.output_offset == 4096)) [
    | inl full ↦ simp full (
        bind (increment-Moved s d inside.counter) λ t e moved.
          let still = Moved-InPage s t inside moved in
          kept
            (record { page = still.page; subsegment = still.subsegment; counter = still.counter }))
    | inr part ↦ simp part (kept inside)
  ]

-- A round of the loop of applyDeltaPatch, on any data and with any device, leaves the offset within
-- the page of 4096 bytes, the offset in the subsegment within its length and fewer than eight bytes
-- in the buffer, where they were so before and it returns.
pub patch_round-InPage :
    (p : Platform) (dry_run : Bool) (page previous segments : ℕ) (s : Patch) (d : Device)
    → InPage s
    → Keeps InPage (patch_round p dry_run page previous segments s d)
unfolding patch_round
patch_round-InPage p dry_run page previous segments s d inside =
    bind (start_page-InPage p dry_run page previous s d inside) λ s1 e started.
      bind
        (patch_bytes-Moved p dry_run page previous (round_length p dry_run page previous s1)
          (record s1 {
            segment_offset = s1.segment_offset + round_length p dry_run page previous s1;
          })
          e started.counter)
        λ s2 f moved.
          bind
            (end_subsegment-InPage p dry_run page previous segments s2 f (record {
              page = omega (arith, moved.offset, started.page);
              subsegment = omega (arith, moved.segment, moved.subsegment, started.subsegment);
              counter = moved.counter;
            }))
            λ s3 g ended. end_page-InPage p dry_run page previous s3 g ended
