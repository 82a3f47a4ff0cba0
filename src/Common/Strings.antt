-- ===== src/Common/Strings.antt =====
-- The operations of `str` and `char` that the program uses, on code points.
use likes_service.Common.Tests.{leb, nat_eqb, if◌then◌else◌}
use likes_service.Common.Lists.{All}
use likes_service.Common.Keys.{Text}
use Prim.Native.Nat.{ℕ, ◌+◌}
use mathlib.Core.Path.{◌≡◌, refl, ap, sym, subst, ◌∙◌}
use mathlib.Core.Logic.{◌≢◌}
use mathlib.Core.Bool.{Bool, false, ◌&&◌, ◌||◌}
use mathlib.Core.Option.{Option, none, some}
use mathlib.Core.List.{List, [], ◌∷◌, ◌++◌}
use native.Mathlib.Omega.{arith}

-- char::is_whitespace: the code points with the property White_Space.
unfoldable pub is_whitespace : ℕ → Bool
is_whitespace c =
    leb 0x9 c && leb c 0xd
    || nat_eqb c 0x20
    || nat_eqb c 0x85
    || nat_eqb c 0xa0
    || nat_eqb c 0x1680
    || leb 0x2000 c && leb c 0x200a
    || nat_eqb c 0x2028
    || nat_eqb c 0x2029
    || nat_eqb c 0x202f
    || nat_eqb c 0x205f
    || nat_eqb c 0x3000

unfoldable pub is_ascii_lowercase : ℕ → Bool
is_ascii_lowercase c = leb b'a' c && leb c b'z'

unfoldable pub is_ascii_digit : ℕ → Bool
is_ascii_digit c = leb b'0' c && leb c b'9'

unfoldable pub to_ascii_lowercase : ℕ → ℕ
to_ascii_lowercase c = if leb b'A' c && leb c b'Z' then c + 32 else c

unfoldable pub trim_start : Text → Text
trim_start [] = []
trim_start (c ∷ s) = let rest = trim_start s in if is_whitespace c then rest else c ∷ s

-- `c` in front of a text that is trimmed at its end.
unfoldable pub cons_trimmed : ℕ → Text → Text
cons_trimmed c [] = if is_whitespace c then [] else c ∷ []
cons_trimmed c (d ∷ s) = c ∷ d ∷ s

unfoldable pub trim_end : Text → Text
unfolding cons_trimmed
trim_end [] = []
trim_end (c ∷ s) = cons_trimmed c (trim_end s)

unfoldable pub trim : Text → Text
unfolding trim_start trim_end is_whitespace
trim s = trim_end (trim_start s)

-- s.strip_prefix(p)
unfoldable pub strip_prefix : Text → Text → Option Text
strip_prefix [] s = some s
strip_prefix (c ∷ p) [] = none
strip_prefix (c ∷ p) (d ∷ s) = let rest = strip_prefix p s in if nat_eqb c d then rest else none

abbrev on_first : ℕ → Option (Text × Text) → Option (Text × Text)
on_first c none = none
on_first c (some (a, b)) = some (c ∷ a, b)

-- s.split_once(c)
unfoldable pub split_once : ℕ → Text → Option (Text × Text)
split_once c [] = none
split_once c (d ∷ s) =
    let rest = on_first d (split_once c s) in if nat_eqb d c then some ([], s) else rest

-- `c` in front of the first piece.
abbrev onto_first : ℕ → List Text → List Text
onto_first c [] = (c ∷ []) ∷ []
onto_first c (s ∷ pieces) = (c ∷ s) ∷ pieces

-- s.split(c), which has at least one piece.
unfoldable pub split : ℕ → Text → List Text
split c [] = [] ∷ []
split c (d ∷ s) = let pieces = split c s in if nat_eqb d c then [] ∷ pieces else onto_first d pieces

-- A text with no white space.
abbrev pub NoSpace : Text → Type 0
NoSpace s = All (λ c. is_whitespace c ≡ false) s

-- A text without the character `c`.
abbrev pub Lacks : ℕ → Text → Type 0
Lacks c s = All (λ d. nat_eqb d c ≡ false) s

trim_start-NoSpace : (s : Text) → NoSpace s → trim_start s ≡ s
unfolding trim_start
trim_start-NoSpace [] h = refl
trim_start-NoSpace (c ∷ s) h = ground (arith, h.0)

trim_end-NoSpace : (s : Text) → NoSpace s → trim_end s ≡ s
unfolding trim_end
trim_end-NoSpace [] h = refl
trim_end-NoSpace (c ∷ []) h = ground (arith, h.0)
trim_end-NoSpace (c ∷ d ∷ s) h = ground (arith, trim_end-NoSpace (d ∷ s) h.1)

-- Trimming leaves a text with no white space as it is.
pub trim-NoSpace : (s : Text) → NoSpace s → trim s ≡ s
unfolding trim
trim-NoSpace s h = ap trim_end (trim_start-NoSpace s h) ∙ trim_end-NoSpace s h

pub strip_prefix-append : (p s : Text) → strip_prefix p (p ++ s) ≡ some s
unfolding strip_prefix
strip_prefix-append [] s = refl
strip_prefix-append (c ∷ p) s = ground (arith, strip_prefix-append p s)

-- The first separator is the one between the parts, if the first part has none.
pub split_once-append : (c : ℕ) (a b : Text) → Lacks c a → split_once c (a ++ c ∷ b) ≡ some (a, b)
unfolding split_once
split_once-append c [] b h = ground arith
split_once-append c (d ∷ a) b h = ground (arith, split_once-append c a b h.1, h.0)

-- What is split off determines the parts: with no separator in the first part, a text with one
-- separator in front of the second is read in one way.
pub append_separated :
    (c : ℕ) (a b a' b' : Text)
    → Lacks c a
    → Lacks c a'
    → a ++ c ∷ b ≡ a' ++ c ∷ b'
    → (a ≡ a') × (b ≡ b')
append_separated c a b a' b' h k e =
    let p : ◌≡◌ {A = Option (Text × Text)} (some (a, b)) (some (a', b')) =
      sym (split_once-append c a b h) ∙ ap (split_once c) e ∙ split_once-append c a' b' k in
    (cc, cc)

Lacks-separator : (c : ℕ) (a b : Text) → Lacks c (a ++ c ∷ b) → ⊥
Lacks-separator c [] b h = absurd (ground (arith, h.0))
Lacks-separator c (d ∷ a) b h = Lacks-separator c a b h.1

-- The same from the right: the last separator is the one in front of a part that has none.
pub append_separated_right :
    (c : ℕ) (a b a' b' : Text)
    → Lacks c b
    → Lacks c b'
    → a ++ c ∷ b ≡ a' ++ c ∷ b'
    → (a ≡ a') × (b ≡ b')
append_separated_right c [] b [] b' h k e = (refl, cc)
append_separated_right c [] b (d ∷ a') b' h k e =
    let p : b ≡ a' ++ c ∷ b' = cc in absurd (Lacks-separator c a' b' (subst (Lacks c) p h))
append_separated_right c (d ∷ a) b [] b' h k e =
    let p : a ++ c ∷ b ≡ b' = cc in absurd (Lacks-separator c a b (subst (Lacks c) (sym p) k))
append_separated_right c (d ∷ a) b (d' ∷ a') b' h k e =
    let p : a ++ c ∷ b ≡ a' ++ c ∷ b' = cc in
    let r = append_separated_right c a b a' b' h k p in (cc, r.1)

-- Texts with the same beginning go on alike.
pub append-cancel : (p a b : Text) → p ++ a ≡ p ++ b → a ≡ b
append-cancel [] a b e = e
append-cancel (c ∷ p) a b e = append-cancel p a b (cc)

-- A text without the separator is one piece.
pub split-Lacks : (c : ℕ) (s : Text) → Lacks c s → split c s ≡ s ∷ []
unfolding split
split-Lacks c [] h = refl
split-Lacks c (d ∷ s) h = rw (h.0, split-Lacks c s h.1) refl

-- A text that is not empty and does not end in white space.
abbrev pub IsClosed : Text → Type 0
IsClosed s = (trim_end s ≡ s) × (s ≢ [])

IsClosed-cons : (c : ℕ) (s : Text) → IsClosed s → IsClosed (c ∷ s)
unfolding trim_end cons_trimmed
IsClosed-cons c [] h = absurd (h.1 refl)
IsClosed-cons c (d ∷ s) h = (rw h.0 refl, λ e. cc)

pub IsClosed-append : (a b : Text) → IsClosed b → IsClosed (a ++ b)
IsClosed-append [] b h = h
IsClosed-append (c ∷ a) b h = IsClosed-cons c (a ++ b) (IsClosed-append a b h)

-- A text between characters that are no white space is not trimmed.
pub trim-closed :
    (c : ℕ) (s : Text) → is_whitespace c ≡ false → IsClosed (c ∷ s) → trim (c ∷ s) ≡ c ∷ s
unfolding trim trim_start
trim-closed c s h closed = rw h closed.0
