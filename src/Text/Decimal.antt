-- ===== src/Text/Decimal.antt =====
-- strconv.FormatInt(n, 10) and the verb %d, for a number that is not negative.
use buildbee.Base.{
  ℕ, zero, suc, ◌+◌, ◌-◌, ◌*◌, ◌/◌, ◌%◌, ◌<◌, ◌≡◌, sym, ap, ◌∙◌, [], ◌∷◌, ◌++◌, arith, ltb,
  if◌then◌else◌,
}
use buildbee.Text.{Text}

-- The digits of a number, on fuel that the number itself is enough of.
unfoldable pub digits : ℕ → ℕ → Text
digits zero n = []
digits (suc fuel) n =
    let rest = digits fuel (n / 10) in
    if ltb n 10 then (48 + n) ∷ [] else rest ++ (48 + n % 10) ∷ []

abbrev pub decimal : ℕ → Text
decimal n = digits (suc n) n

-- The number that digits stand for, behind a number that is read already.
unfoldable pub read_digits : ℕ → Text → ℕ
read_digits k [] = k
read_digits k (c ∷ s) = read_digits (k * 10 + (c - 48)) s

read_digits-append :
    (k d : ℕ) (s : Text) → read_digits k (s ++ (48 + d) ∷ []) ≡ read_digits k s * 10 + d
unfolding read_digits
read_digits-append k d [] = omega arith
read_digits-append k d (c ∷ s) = read_digits-append (k * 10 + (c - 48)) d s

read_digits-digits : (fuel n : ℕ) → n < fuel → read_digits 0 (digits fuel n) ≡ n
unfolding digits read_digits
read_digits-digits zero n h = omega (arith, h)
read_digits-digits (suc fuel) n h = ground (
  arith,
  h,
  read_digits-append 0 (n % 10) (digits fuel (n / 10)),
  read_digits-digits fuel (n / 10),
)

-- A number is printed with fuel enough, whatever it is: reading its digits gives it back.
pub decimal-reads : (n : ℕ) → read_digits 0 (decimal n) ≡ n
decimal-reads n = read_digits-digits (suc n) n (omega arith)

pub decimal-inj : (m n : ℕ) → decimal m ≡ decimal n → m ≡ n
decimal-inj m n h = sym (decimal-reads m) ∙ ap (read_digits 0) h ∙ decimal-reads n
