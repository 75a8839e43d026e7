-- ===== src/Protocol/Frame/Soundness.antt =====
-- No read of `decode_response` leaves the buffer.
use ironpulse.Prelude.{
  ℕ, zero, suc, ◌+◌, ◌*◌, ◌/◌, ◌%◌, ◌<◌, ◌≤◌, ◌≡◌, refl, ap, ap₂, List, [], ◌∷◌, some, arith,
  length, ◌>>=◌, get_or, Option-cases, guard, ◌==◌, ◌>>◌, Bool-cases, ==_iff, inl, inr,
}
use mathlib.Core.Path.{fun_ext}
use ironpulse.Protocol.Frame.{
  FunctionCode, read_holding_registers, read_input_registers, write_single_register, read_registers,
  decode_response, decode_registers, decode_pdu, expected_frame_length, function_of,
}

stray_get : (a b : ℕ) (xs : List ℕ) (i : ℕ) → i < length xs → get_or xs i a ≡ get_or xs i b
stray_get a b [] i h = absurd (omega arith)
stray_get a b (x ∷ xs) zero h = refl
stray_get a b (x ∷ xs) (suc i) h = stray_get a b xs i (omega arith)

stray_registers :
    (a b : ℕ) (buf : List ℕ) (left i : ℕ)
    → 9 + (i + left) * 2 ≤ length buf
    → read_registers a buf left i ≡ read_registers b buf left i
unfolding read_registers
stray_registers a b buf zero i h = refl
stray_registers a b buf (suc n) i h =
    ap₂ ◌∷◌
      (ap₂ (λ hi lo. hi * 256 + lo) (stray_get a b buf (9 + i * 2) (omega arith))
        (stray_get a b buf (9 + i * 2 + 1) (omega arith)))
      (stray_registers a b buf n (i + 1) (omega arith))

pub frame_length_bounds :
    (stray : ℕ) (buf : List ℕ) {total : ℕ}
    → expected_frame_length stray buf ≡ some total
    → (8 ≤ total) × (total ≤ 260) × (7 ≤ length buf)
unfolding expected_frame_length
frame_length_bounds stray buf h = ground arith

stray_body :
    (a b : ℕ) (buf : List ℕ) (total : ℕ) (fc : FunctionCode)
    → 7 ≤ length buf
    → length buf ≡ total
    → decode_registers a buf total fc ≡ decode_registers b buf total fc
unfolding decode_registers
stray_body a b buf total write_single_register seven e =
    ground (arith, stray_get a b buf 10, stray_get a b buf 11)
stray_body a b buf total read_holding_registers seven e =
    ground (arith, stray_get a b buf 8, stray_registers a b buf (get_or buf 8 b / 2) 0)
stray_body a b buf total read_input_registers seven e =
    ground (arith, stray_get a b buf 8, stray_registers a b buf (get_or buf 8 b / 2) 0)

stray_pdu :
    (a b : ℕ) (buf : List ℕ) (total : ℕ) (fc : FunctionCode)
    → 8 ≤ length buf
    → length buf ≡ total
    → decode_pdu a buf total fc ≡ decode_pdu b buf total fc
unfolding decode_pdu
stray_pdu a b buf total fc eight e = ground (
  arith,
  stray_get a b buf 0,
  stray_get a b buf 1,
  stray_get a b buf 6,
  stray_get a b buf 7,
  stray_get a b buf 8,
  stray_body a b buf total fc,
)

stray_length : (a b : ℕ) (buf : List ℕ) → expected_frame_length a buf ≡ expected_frame_length b buf
unfolding expected_frame_length
stray_length a b buf =
    ground
      (arith, stray_get a b buf 2, stray_get a b buf 3, stray_get a b buf 4, stray_get a b buf 5)

stray_rest :
    (a b : ℕ) (buf : List ℕ) (total : ℕ)
    → 8 ≤ total
    → (guard (length buf == total)
        >> (function_of (get_or buf 7 a % 128) >>= λ f. decode_pdu a buf total f))
      ≡ (guard (length buf == total)
          >> (function_of (get_or buf 7 b % 128) >>= λ f. decode_pdu b buf total f))
stray_rest a b buf total eight = elim (Bool-cases (length buf == total)) [
  | inl e ↦
      let same = (==_iff (length buf) total).0 e in
      rw (e, stray_get a b buf 7 (omega arith))
        (ap (λ k. function_of (get_or buf 7 b % 128) >>= k)
          (fun_ext (λ f. stray_pdu a b buf total f (omega arith) same)))
  | inr e ↦ rw e
]

-- What a read past the end would give never shows in the result: no read of `decode_response`
-- leaves the buffer, whatever bytes arrive.
pub decode_response_in_bounds :
    (a b : ℕ) (buf : List ℕ) → decode_response a buf ≡ decode_response b buf
unfolding decode_response
decode_response_in_bounds a b buf = elim (Option-cases (expected_frame_length b buf)) [
  | inl e ↦ rw (stray_length a b buf, e)
  | inr (total, e) ↦
      rw (stray_length a b buf, e) (stray_rest a b buf total (frame_length_bounds b buf e).0)
]
