-- ===== src/Common/Keys.antt =====
-- Types whose values the program compares by `==`, and text as its list of code points.
use Prim.Native.Char.{code}
use Prim.Native.Nat.{ℕ}
use Prim.Native.String.{String}
use mathlib.Core.Path.{◌≡◌, refl}
use mathlib.Core.Logic.{◌↔◌}
use mathlib.Core.Bool.{Bool, true, false, ◌&&◌}
use mathlib.Core.List.{List, [], ◌∷◌}
use native.Mathlib.Omega.{arith}
use likes_service.Common.Tests.{nat_eqb, nat_eqb_iff}

pub record Eq {ℓ} (A : Type ℓ) : Type ℓ where
  pub eqb : A → A → Bool
  pub eqb_iff : (a b : A) → (eqb a b ≡ true) ↔ (a ≡ b)

infix 50 ◌==◌
abbrev pub ◌==◌ {ℓ} : {A : Type ℓ} ⦃e : Eq A⦄ → A → A → Bool
◌==◌ ⦃e⦄ = e.eqb

pub ==-refl {ℓ} : {A : Type ℓ} ⦃e : Eq A⦄ (a : A) → (a == a) ≡ true
==-refl ⦃e⦄ a = (e.eqb_iff a a).1 refl

instance abbrev pub nat_eq : Eq ℕ
nat_eq = record { eqb = nat_eqb; eqb_iff = nat_eqb_iff }

-- A `String`: the code points of its characters.
abbrev pub Text : Type 0
Text = List ℕ

-- The text of a literal. It is shut, so that a proof sees a literal as one unknown.
abbrev codes : String → Text
codes String.[] = []
codes (String.◌∷◌ c s) = code c ∷ codes s

unfoldable pub text : String → Text
text s = codes s

unfoldable pub text_eqb : Text → Text → Bool
text_eqb [] [] = true
text_eqb [] (d ∷ t) = false
text_eqb (c ∷ s) [] = false
text_eqb (c ∷ s) (d ∷ t) = nat_eqb c d && text_eqb s t

pub text_eqb_iff : (s t : Text) → (text_eqb s t ≡ true) ↔ (s ≡ t)
unfolding text_eqb
text_eqb_iff [] [] = (λ h. refl, λ h. refl)
text_eqb_iff [] (d ∷ t) = (λ h. cc, λ h. cc)
text_eqb_iff (c ∷ s) [] = (λ h. cc, λ h. cc)
text_eqb_iff (c ∷ s) (d ∷ t) = ground (arith, text_eqb_iff s t)

instance abbrev pub text_eq : Eq Text
text_eq = record { eqb = text_eqb; eqb_iff = text_eqb_iff }

module _ {ℓ κ} {A : Type ℓ} {B : Type κ} ⦃e : Eq A⦄ ⦃f : Eq B⦄ where
  unfoldable pub pair_eqb : A × B → A × B → Bool
  pair_eqb (a, b) (c, d) = e.eqb a c && f.eqb b d

  pub pair_eqb_iff : (p q : A × B) → (pair_eqb p q ≡ true) ↔ (p ≡ q)
  unfolding pair_eqb
  pair_eqb_iff (a, b) (c, d) = ground (arith, e.eqb_iff a c, f.eqb_iff b d)

  instance abbrev pub pair_eq : Eq (A × B)
  pair_eq = record { eqb = pair_eqb; eqb_iff = pair_eqb_iff }
