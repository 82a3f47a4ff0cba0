-- ===== src/Common/Decimal.antt =====
-- Numbers in decimal, as `format!("{n}")` prints them. The fuel `n + 1` is enough for the digits of
-- `n`: `value-show_nat` reads the number back.
use Prim.Native.Nat.{ℕ, zero, suc, ◌+◌, ◌-◌, ◌*◌, ◌/◌, ◌%◌, ◌<◌}
use mathlib.Core.Path.{◌≡◌, refl, ap, sym, subst, ◌∙◌}
use mathlib.Core.Logic.{inl, inr}
use mathlib.Core.Bool.{true, false}
use mathlib.Core.List.{[], ◌∷◌, ◌++◌}
use native.Mathlib.Omega.{arith}
use likes_service.Common.Tests.{ltb, nat_eqb, nat_eqb_iff, if◌then◌else◌, Bool-cases}
use likes_service.Common.Lists.{All, All-append}
use likes_service.Common.Int.{ℤ, pos, negsuc}
use likes_service.Common.Keys.{Text}
use likes_service.Common.Strings.{Lacks, is_ascii_digit}

digits : ℕ → ℕ → Text
digits zero n = []
digits (suc fuel) n =
    let more = digits fuel (n / 10) ++ (b'0' + n % 10) ∷ [] in
    if ltb n 10 then (b'0' + n) ∷ [] else more

unfoldable pub show_nat : ℕ → Text
unfolding digits
show_nat n = digits (n + 1) n

-- The same for an i64.
unfoldable pub show_integer : ℤ → Text
unfolding show_nat
show_integer (pos n) = show_nat n
show_integer (negsuc n) = b'-' ∷ show_nat (n + 1)

value_from : ℕ → Text → ℕ
value_from a [] = a
value_from a (c ∷ s) = value_from (a * 10 + (c - b'0')) s

value_from-append :
    (a : ℕ) (s : Text) (c : ℕ) → value_from a (s ++ c ∷ []) ≡ value_from a s * 10 + (c - b'0')
unfolding value_from
value_from-append a [] c = refl
value_from-append a (d ∷ s) c = value_from-append (a * 10 + (d - b'0')) s c

value-digits : (fuel n : ℕ) → n < fuel → value_from 0 (digits fuel n) ≡ n
unfolding value_from digits
value-digits zero n h = absurd (omega arith)
value-digits (suc fuel) n h = elim (Bool-cases (ltb n 10)) [
  | inl e ↦ rw e (omega arith)
  | inr e ↦ rw e (
      ground (
        arith,
        value_from-append 0 (digits fuel (n / 10)) (b'0' + n % 10),
        value-digits fuel (n / 10),
      ))
]

value-show_nat : (n : ℕ) → value_from 0 (show_nat n) ≡ n
unfolding show_nat
value-show_nat n = value-digits (n + 1) n (omega arith)

-- Two numbers that are printed alike are the same.
pub show_nat-injective : (m n : ℕ) → show_nat m ≡ show_nat n → m ≡ n
show_nat-injective m n e = sym (value-show_nat m) ∙ ap (value_from 0) e ∙ value-show_nat n

digits-Lacks-colon : (fuel n : ℕ) → Lacks b':' (digits fuel n)
unfolding digits
digits-Lacks-colon zero n = tt
digits-Lacks-colon (suc fuel) n = elim (Bool-cases (ltb n 10)) [
  | inl e ↦ rw e (ground arith, tt)
  | inr e ↦
      rw e (
        All-append _ (digits fuel (n / 10)) _ (digits-Lacks-colon fuel (n / 10)) (ground arith, tt))
]

-- A printed number has no colon.
pub show_nat-Lacks-colon : (n : ℕ) → Lacks b':' (show_nat n)
unfolding show_nat
show_nat-Lacks-colon n = digits-Lacks-colon (n + 1) n

-- A text of digits.
abbrev pub IsDigits : Text → Type 0
IsDigits s = All (λ d. is_ascii_digit d ≡ true) s

digits-IsDigits : (fuel n : ℕ) → IsDigits (digits fuel n)
unfolding digits is_ascii_digit
digits-IsDigits zero n = tt
digits-IsDigits (suc fuel) n = elim (Bool-cases (ltb n 10)) [
  | inl e ↦ rw e (ground arith, tt)
  | inr e ↦
      rw e
        (All-append _ (digits fuel (n / 10)) _ (digits-IsDigits fuel (n / 10)) (ground arith, tt))
]

pub show_nat-IsDigits : (n : ℕ) → IsDigits (show_nat n)
unfolding show_nat
show_nat-IsDigits n = digits-IsDigits (n + 1) n

no_sign : (s : Text) (m : ℕ) → show_nat m ≡ b'-' ∷ s → ⊥
unfolding is_ascii_digit
no_sign s m e =
    let digit = subst IsDigits e (show_nat-IsDigits m) in absurd (ground (arith, digit.0))

-- Two integers that are printed alike are the same.
pub show_integer-injective : (m n : ℤ) → show_integer m ≡ show_integer n → m ≡ n
unfolding show_integer
show_integer-injective (pos m) (pos n) e = ap pos (show_nat-injective m n e)
show_integer-injective (pos m) (negsuc n) e = absurd (no_sign (show_nat (n + 1)) m e)
show_integer-injective (negsuc m) (pos n) e = absurd (no_sign (show_nat (m + 1)) n (sym e))
show_integer-injective (negsuc m) (negsuc n) e =
    let same = show_nat-injective (m + 1) (n + 1) cc in ap negsuc (omega (arith, same))

IsDigits-Lacks : (c : ℕ) → is_ascii_digit c ≡ false → (s : Text) → IsDigits s → Lacks c s
IsDigits-Lacks c h [] ds = tt
IsDigits-Lacks c h (d ∷ s) ds = (other c d h ds.0, IsDigits-Lacks c h s ds.1)
  where
    other : (c d : ℕ) → is_ascii_digit c ≡ false → is_ascii_digit d ≡ true → nat_eqb d c ≡ false
    other c d h k = elim (Bool-cases (nat_eqb d c)) [
      | inl e ↦ let same = (nat_eqb_iff d c).0 e in absurd (cc)
      | inr e ↦ e
    ]

-- A printed integer has only digits, and perhaps a minus.
pub show_integer-Lacks :
    (c : ℕ) → is_ascii_digit c ≡ false → nat_eqb b'-' c ≡ false → (n : ℤ) → Lacks c (show_integer n)
unfolding show_integer
show_integer-Lacks c h k (pos n) = IsDigits-Lacks c h (show_nat n) (show_nat-IsDigits n)
show_integer-Lacks c h k (negsuc n) =
    (k, IsDigits-Lacks c h (show_nat (n + 1)) (show_nat-IsDigits (n + 1)))
