-- ===== src/Io/Drainable.antt =====
-- `DrainableIOBuffer` (src/neixx/io/io_buffer.cpp), in a build without debug checks. An address is a
-- number, and `none` a null pointer.
use mathlib.Core.Path.{subst}
use libnei.Common.{
  ℕ, ◌+◌, ◌-◌, ◌≡◌, min, ◌∙◌, refl, ap, List, [], ◌∷◌, Option, none, some, arith, ltb,
  if◌then◌else◌,
}

pub record DrainableIoBuffer : Type 0 where
  -- `data()` of the base buffer.
  pub base_data : Option ℕ
  pub size : ℕ
  pub offset : ℕ
  -- `data_`
  pub address : Option ℕ

refresh_data_pointer : DrainableIoBuffer → DrainableIoBuffer
refresh_data_pointer b = record b {
  address = elim b.base_data [ none ↦ none | some start ↦ some (start + b.offset) ];
}

pub new_drainable : Option ℕ → ℕ → DrainableIoBuffer
unfolding refresh_data_pointer
new_drainable base_data size =
    refresh_data_pointer (record { base_data = base_data; size = size; offset = 0; address = none })

abbrev pub bytes_remaining : DrainableIoBuffer → ℕ
bytes_remaining b = b.size - b.offset

abbrev pub bytes_consumed : DrainableIoBuffer → ℕ
bytes_consumed b = b.offset

did_consume : DrainableIoBuffer → ℕ → DrainableIoBuffer
unfolding refresh_data_pointer
did_consume b bytes =
    if ltb (bytes_remaining b) bytes
    then refresh_data_pointer (record b { offset = b.size })
    else refresh_data_pointer (record b { offset = b.offset + bytes })

pub drained : DrainableIoBuffer → List ℕ → DrainableIoBuffer
unfolding did_consume
drained b [] = b
drained b (bytes ∷ rest) = drained (did_consume b bytes) rest

abbrev total : List ℕ → ℕ
total [] = 0
total (n ∷ ns) = n + total ns

pub record IsWindow (base : ℕ) (size consumed : ℕ) (b : DrainableIoBuffer) : Type 0 where
  pub of_base : b.base_data ≡ some base
  pub of_size : b.size ≡ size
  pub at_offset : b.offset ≡ min size consumed
  pub at_address : b.address ≡ some (base + min size consumed)

step_offset :
    (b : DrainableIoBuffer) (bytes size consumed : ℕ)
    → b.size ≡ size
    → b.offset ≡ min size consumed
    → (did_consume b bytes).offset ≡ min size (consumed + bytes)
unfolding did_consume refresh_data_pointer
step_offset b bytes size consumed h o = ground arith

step_fields :
    (b : DrainableIoBuffer) (bytes : ℕ)
    → ((did_consume b bytes).base_data ≡ b.base_data) × ((did_consume b bytes).size ≡ b.size)
unfolding did_consume refresh_data_pointer
step_fields b bytes = (ground arith, ground arith)

step_address :
    (b : DrainableIoBuffer) (bytes base : ℕ)
    → b.base_data ≡ some base
    → (did_consume b bytes).address ≡ some (base + (did_consume b bytes).offset)
unfolding did_consume refresh_data_pointer
step_address b bytes base k = ground arith

consume_step :
    (base size consumed : ℕ) (b : DrainableIoBuffer) (bytes : ℕ)
    → IsWindow base size consumed b
    → IsWindow base size (consumed + bytes) (did_consume b bytes)
consume_step base size consumed b bytes w =
    let moved = step_offset b bytes size consumed w.of_size w.at_offset in
    record {
      of_base = (step_fields b bytes).0 ∙ w.of_base;
      of_size = (step_fields b bytes).1 ∙ w.of_size;
      at_offset = moved;
      at_address = step_address b bytes base w.of_base ∙ ap (λ n. some (base + n)) moved;
    }

drained_from :
    (base size consumed : ℕ) (b : DrainableIoBuffer) (ns : List ℕ)
    → IsWindow base size consumed b
    → IsWindow base size (consumed + total ns) (drained b ns)
unfolding drained
drained_from base size consumed b [] w = subst (λ n. IsWindow base size n b) (omega arith) w
drained_from base size consumed b (n ∷ ns) w =
    subst (λ m. IsWindow base size m (drained (did_consume b n) ns)) (omega arith)
      (drained_from base size (consumed + n) (did_consume b n) ns
        (consume_step base size consumed b n w))

new_drainable-IsWindow : (base size : ℕ) → IsWindow base size 0 (new_drainable (some base) size)
unfolding new_drainable refresh_data_pointer
new_drainable-IsWindow base size = record {
  of_base = refl;
  of_size = refl;
  at_offset = omega arith;
  at_address = ap (λ n. some n) (omega arith);
}

-- Whatever counts of bytes were consumed, also more than there were: the bytes consumed are the sum
-- of the counts, at most the size; what remains is the rest of the size; and `data()` points just
-- behind the bytes consumed.
pub drained_lem :
    (base size : ℕ) (ns : List ℕ)
    → (bytes_consumed (drained (new_drainable (some base) size) ns) ≡ min size (total ns))
      × (bytes_remaining (drained (new_drainable (some base) size) ns) ≡ size - total ns)
      × ((drained (new_drainable (some base) size) ns).address ≡ some (base + min size (total ns)))
drained_lem base size ns =
    let w =
      drained_from base size 0 (new_drainable (some base) size) ns
        (new_drainable-IsWindow base size) in
    (
      w.at_offset ∙ omega arith,
      omega (arith, w.at_offset, w.of_size),
      w.at_address ∙ ap (λ n. some (base + n)) (omega arith),
    )
