-- ===== src/Prelude/Codes.antt =====
-- Text that the program walks: a list of the code units of the JavaScript string. Letters are
-- mapped to lower case as ASCII letters are.
use Prim.Native.Nat.{ℕ, ◌+◌}
use Prim.Native.Char.{code}
use Prim.Native.String.{String}
use mathlib.Core.Path.{◌≡◌, refl, ap}
use mathlib.Core.Logic.{◌↔◌, inl, inr}
use mathlib.Core.Bool.{Bool, true, false, ◌&&◌, ◌||◌}
use mathlib.Core.List.{List, [], ◌∷◌, ◌++◌, map}
use native.Mathlib.Omega.{arith}
use docklane.Prelude.Tests.{Bool-cases, Comparable, ◌==◌, ℕ-eq, leb, nat_eq_iff, if◌then◌else◌}

abbrev pub Text : Type 0
Text = List ℕ

abbrev pub codes : String → Text
codes String.[] = []
codes (String.◌∷◌ c s) = code c ∷ codes s

abbrev text_eq : Text → Text → Bool
text_eq [] [] = true
text_eq (c ∷ s) (d ∷ t) = c == d && text_eq s t
text_eq _ _ = false

pub text_eq_iff : (s t : Text) → (text_eq s t ≡ true) ↔ (s ≡ t)
text_eq_iff [] [] = ground arith
text_eq_iff [] (d ∷ t) = ground arith
text_eq_iff (c ∷ s) [] = ground arith
text_eq_iff (c ∷ s) (d ∷ t) = ground (arith, text_eq_iff s t, nat_eq_iff c d)

instance abbrev pub Text-eq : Comparable Text
Text-eq = record { equals = text_eq; equals_iff = text_eq_iff }

-- toLowerCase
unfoldable pub lower : ℕ → ℕ
lower c = if leb b'A' c && leb c b'Z' then c + 32 else c

pub lower_idem : (c : ℕ) → lower (lower c) ≡ lower c
unfolding lower
lower_idem c = ground arith

unfoldable pub to_lower : Text → Text
unfolding lower
to_lower = map lower

pub to_lower_idem : (s : Text) → to_lower (to_lower s) ≡ to_lower s
unfolding to_lower
to_lower_idem [] = refl
to_lower_idem (c ∷ s) = ground (arith, lower_idem c, to_lower_idem s)

-- s.startsWith(t), and s.includes(t)
unfoldable pub starts_with : Text → Text → Bool
starts_with s [] = true
starts_with [] (d ∷ t) = false
starts_with (c ∷ s) (d ∷ t) = c == d && starts_with s t

unfoldable pub includes : Text → Text → Bool
unfolding starts_with
includes [] t = starts_with [] t
includes (c ∷ s) t = starts_with (c ∷ s) t || includes s t

-- The text stands somewhere in the other.
abbrev pub Contains : Text → Text → Type 0
Contains s t = (before : Text) × (after : Text) × (s ≡ before ++ t ++ after)

pub starts_with_iff : (s t : Text) → (starts_with s t ≡ true) ↔ ((after : Text) × (s ≡ t ++ after))
unfolding starts_with
starts_with_iff s [] = (λ h. (s, refl), λ h. refl)
starts_with_iff [] (d ∷ t) = (λ h. cc, λ h. cc)
starts_with_iff (c ∷ s) (d ∷ t) = (
  λ h.
      let (after, e) = (starts_with_iff s t).0 (ground arith) in
      let same : c ≡ d = (nat_eq_iff c d).0 (ground arith) in (after, cc),
  λ h.
      let (after, e) = h in
      let same : c ≡ d = cc in
      let hit = (nat_eq_iff c d).1 same in
      let rest = (starts_with_iff s t).1 (after, cc) in ground arith,
)

starts_with_empty : (t before after : Text) → [] ≡ before ++ t ++ after → starts_with [] t ≡ true
unfolding starts_with
starts_with_empty [] before after e = refl
starts_with_empty (d ∷ t) [] after e = cc
starts_with_empty (d ∷ t) (c ∷ before) after e = cc

includes_cons :
    (c : ℕ) (s t : Text)
    → (Contains s t → includes s t ≡ true)
    → (before after : Text) → c ∷ s ≡ before ++ t ++ after
    → (starts_with (c ∷ s) t || includes s t) ≡ true
includes_cons c s t rest [] after e =
    let hit = (starts_with_iff (c ∷ s) t).1 (after, e) in ground arith
includes_cons c s t rest (b ∷ before) after e = let hit = rest (before, after, cc) in ground arith

pub includes_iff : (s t : Text) → (includes s t ≡ true) ↔ Contains s t
unfolding includes
includes_iff [] t = (
  λ h. let (after, e) = (starts_with_iff [] t).0 h in ([], after, e),
  λ h. starts_with_empty t h.0 h.1 h.2,
)
includes_iff (c ∷ s) t = (
  λ h. elim (Bool-cases (starts_with (c ∷ s) t)) [
    | inl e ↦ let (after, f) = (starts_with_iff (c ∷ s) t).0 e in ([], after, f)
    | inr e ↦
        let (before, after, f) = (includes_iff s t).0 (ground (arith, e)) in
        (c ∷ before, after, ap (λ l. c ∷ l) f)
  ],
  λ h. includes_cons c s t (includes_iff s t).1 h.0 h.1 h.2,
)
