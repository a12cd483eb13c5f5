-- ===== src/Common/Texts.antt =====
-- Text as JavaScript has it: a sequence of UTF-16 code units. Literals are written through `codes`,
-- which is exact for the ASCII that the program's literals hold.
use Prim.Native.Nat.{ℕ}
use Prim.Native.Char.{code}
use Prim.Native.String.{String}
use mathlib.Core.Path.{◌≡◌, refl}
use mathlib.Core.Logic.{◌↔◌}
use mathlib.Core.Bool.{Bool, true, false, ◌&&◌, ◌||◌}
use mathlib.Core.List.{List, [], ◌∷◌, reverse}
use native.Mathlib.Omega.{arith}
use autoforge.Common.Tests.{Eq, nat_eqb, leb, if◌then◌else◌}

abbrev pub Text : Type 0
Text = List ℕ

abbrev pub codes : String → Text
codes String.[] = []
codes (String.◌∷◌ c s) = code c ∷ codes s

abbrev pub text_eqb : Text → Text → Bool
text_eqb [] [] = true
text_eqb (a ∷ s) (b ∷ t) = nat_eqb a b && text_eqb s t
text_eqb _ _ = false

pub text_eqb_iff : (s t : Text) → (text_eqb s t ≡ true) ↔ (s ≡ t)
text_eqb_iff [] [] = (λ _. refl, λ _. refl)
text_eqb_iff [] (b ∷ t) = (λ h. cc, λ h. cc)
text_eqb_iff (a ∷ s) [] = (λ h. cc, λ h. cc)
text_eqb_iff (a ∷ s) (b ∷ t) = ground (arith, text_eqb_iff s t)

instance abbrev pub text_eq : Eq Text
text_eq = record { same = text_eqb; same_iff = text_eqb_iff }

abbrev pub starts_with : Text → Text → Bool
starts_with s [] = true
starts_with [] (p ∷ ps) = false
starts_with (c ∷ s) (p ∷ ps) = nat_eqb c p && starts_with s ps

-- `WhiteSpace` and `LineTerminator` of the language, which `trim` removes and `\s` matches.
abbrev pub is_space : ℕ → Bool
is_space c =
    (leb 9 c && leb c 13)
    || nat_eqb c 32
    || nat_eqb c 160
    || nat_eqb c 5760
    || (leb 8192 c && leb c 8202)
    || nat_eqb c 8232
    || nat_eqb c 8233
    || nat_eqb c 8239
    || nat_eqb c 8287
    || nat_eqb c 12288
    || nat_eqb c 65279

abbrev pub trim_start : Text → Text
trim_start [] = []
trim_start (c ∷ s) = if is_space c then trim_start s else c ∷ s

unfoldable pub trim : Text → Text
trim s = reverse (trim_start (reverse (trim_start s)))
