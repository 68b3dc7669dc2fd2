-- ===== src/Forensic/Bytes/Words.antt =====
-- Little-endian words: the encoding that `from_bytes` undoes, and what a read returns.
use dfir_investigation_workb.Prelude.{
  All, Bool-cases, [], ap, arith, drop, inl, inr, length, ltb, ltb→le, ok, refl, slice, suc, take,
  zero, ℕ, ◌%◌, ◌+◌, ◌-◌, ◌/◌, ◌<◌, ◌∷◌, ◌≡◌, ◌≤◌,
}
use dfir_investigation_workb.Forensic.Bytes.{Bytes, IsByte, byte_limit, from_bytes, unpack_from}

-- `n.to_bytes(size, "little")`, without the overflow check
abbrev pub to_bytes : ℕ → ℕ → Bytes
to_bytes zero n = []
to_bytes (suc size) n = (n % 256) ∷ to_bytes size (n / 256)

pub length-to_bytes : (size n : ℕ) → length (to_bytes size n) ≡ size
length-to_bytes zero n = refl
length-to_bytes (suc size) n = ap suc (length-to_bytes size (n / 256))

pub to_bytes-IsByte : (size n : ℕ) → All IsByte (to_bytes size n)
to_bytes-IsByte zero n = tt
to_bytes-IsByte (suc size) n = (omega arith, to_bytes-IsByte size (n / 256))

pub from_bytes-to_bytes : (size n : ℕ) → n < byte_limit size → from_bytes (to_bytes size n) ≡ n
unfolding from_bytes
from_bytes-to_bytes zero n h = omega arith
from_bytes-to_bytes (suc size) n h = omega (arith, from_bytes-to_bytes size (n / 256) (omega arith))

pub from_bytes-lt : (bs : Bytes) → All IsByte bs → from_bytes bs < byte_limit (length bs)
unfolding from_bytes
from_bytes-lt [] h = omega arith
from_bytes-lt (b ∷ bs) h = omega (arith, h.0, from_bytes-lt bs h.1)

pub take-All : (n : ℕ) (bs : Bytes) → All IsByte bs → All IsByte (take n bs)
take-All zero bs h = tt
take-All (suc n) [] h = tt
take-All (suc n) (b ∷ bs) h = (h.0, take-All n bs h.1)

pub drop-All : (n : ℕ) (bs : Bytes) → All IsByte bs → All IsByte (drop n bs)
drop-All zero bs h = h
drop-All (suc n) [] h = tt
drop-All (suc n) (b ∷ bs) h = drop-All n bs h.1

pub slice-All : (i j : ℕ) (bs : Bytes) → All IsByte bs → All IsByte (slice i j bs)
unfolding slice
slice-All i j bs h = take-All (j - i) (drop i bs) (drop-All i bs h)

-- A read that succeeds lies within the bytes.
pub unpack_from-in_range :
    (size : ℕ) (bs : Bytes) (offset : ℕ) {v : ℕ}
    → unpack_from size bs offset ≡ ok v
    → offset + size ≤ length bs
unfolding unpack_from
unpack_from-in_range size bs offset h = elim (Bool-cases (ltb (length bs) (offset + size))) [
  | inl short ↦ ground (arith, short)
  | inr fits ↦ omega (arith, ltb→le _ _ fits)
]

-- A read within the bytes succeeds, with the value of the bytes there.
pub unpack_from-eq_ok :
    (size : ℕ) (bs : Bytes) (offset : ℕ)
    → offset + size ≤ length bs
    → unpack_from size bs offset ≡ ok (from_bytes (slice offset (offset + size) bs))
unfolding unpack_from
unpack_from-eq_ok size bs offset h = ground arith
