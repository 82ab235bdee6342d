-- ===== src/Text/Truncate.antt =====
-- core.truncate cuts at the last character boundary that fits.
use buildbee.Base.{
  ℕ, zero, suc, ◌≤◌, ◌<◌, ◌≡◌, true, Bool-cases, inl, inr, arith, leb, length, take, ◌⊎◌,
}
use buildbee.Text.{Text, starts_at, cut_back, truncate}

cut_back_le : (s : Text) (max : ℕ) → cut_back s max ≤ max
unfolding cut_back
cut_back_le s zero = omega arith
cut_back_le s (suc max) = ground (arith, cut_back_le s max)

cut_back_boundary :
    (s : Text) (max : ℕ) → starts_at s 0 ≡ true → starts_at s (cut_back s max) ≡ true
unfolding cut_back
cut_back_boundary s zero h = h
cut_back_boundary s (suc max) h = ground (arith, cut_back_boundary s max h)

cut_back_last : (s : Text) (max i : ℕ) → i ≤ max → starts_at s i ≡ true → i ≤ cut_back s max
unfolding cut_back
cut_back_last s zero i le h = le
cut_back_last s (suc max) i le h = elim (Bool-cases (starts_at s (suc max))) [
  | inl e ↦ rw e le
  | inr e ↦ rw e (cut_back_last s max i (ground (arith, e)) h)
]

-- A text that begins with a whole character and is cut is cut to its longest prefix of at most
-- `max` bytes that ends between two characters; one that fits is left alone.
pub truncate_lem :
    (s : Text) (max : ℕ)
    → starts_at s 0 ≡ true
    → ((length s ≤ max) × (truncate s max ≡ s))
      ⊎ ((max < length s)
          × ((k : ℕ) × (truncate s max ≡ take k s)
              × (k ≤ max)
              × (starts_at s k ≡ true)
              × ((i : ℕ) → i ≤ max → starts_at s i ≡ true → i ≤ k)))
unfolding truncate
truncate_lem s max h = elim (Bool-cases (leb (length s) max)) [
  | inl e ↦ inl (ground arith, rw e)
  | inr e ↦ inr (
    ground arith,
    (cut_back s max, rw e, cut_back_le s max, cut_back_boundary s max h, cut_back_last s max),
  )
]
