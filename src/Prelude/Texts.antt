-- ===== src/Prelude/Texts.antt =====
-- Text: a native `String` where the program only compares or joins whole texts, and its code units
-- where it walks them.
use Prim.Native.Nat.{ℕ, zero, suc, ◌/◌, ◌%◌}
use Prim.Native.Char.{code}
use Prim.Native.String
use Prim.Native.String.{String}
use mathlib.Core.Path.{◌≡◌, refl}
use mathlib.Core.Bool.{Bool, true, false, ◌&&◌, ◌||◌}
use mathlib.Core.Option.{Option, none, some}
use mathlib.Core.List.{List, [], ◌∷◌}
use native.Mathlib.Omega.{arith}
use mathlib.Core.Logic.{◌↔◌}
use code_trace.Prelude.Tests.{leb, nat_eq, nat_eq_iff, Eq, if◌then◌else◌}

abbrev pub Text : Type 0
Text = List ℕ

abbrev pub codes : String → Text
codes String.[] = []
codes (String.◌∷◌ c s) = code c ∷ codes s

abbrev pub same_units : Text → Text → Bool
same_units [] [] = true
same_units [] (_ ∷ _) = false
same_units (_ ∷ _) [] = false
same_units (c ∷ cs) (d ∷ ds) = nat_eq c d && same_units cs ds

pub same_units_iff : (a b : Text) → (same_units a b ≡ true) ↔ (a ≡ b)
same_units_iff [] [] = ((λ h. refl), λ h. refl)
same_units_iff [] (d ∷ ds) = ((λ h. absurd (cc h)), λ h. absurd (cc h))
same_units_iff (c ∷ cs) [] = ((λ h. absurd (cc h)), λ h. absurd (cc h))
same_units_iff (c ∷ cs) (d ∷ ds) =
    let (to, from) = same_units_iff cs ds in ground (arith, to, from, nat_eq_iff c d)

instance abbrev pub text_units_eq : Eq Text
text_units_eq = record { beq = same_units; beq_iff = same_units_iff }

-- `text.startsWith(prefix)`: what is left of the text behind the prefix
abbrev pub strip_prefix : Text → Text → Option Text
strip_prefix [] text = some text
strip_prefix (_ ∷ _) [] = none
strip_prefix (c ∷ cs) (d ∷ ds) = if nat_eq c d then strip_prefix cs ds else none

abbrev pub starts_with : Text → Text → Bool
starts_with prefix text = elim (strip_prefix prefix text) [ none ↦ false | some _ ↦ true ]

-- `text.includes(part)`
abbrev pub contains : Text → Text → Bool
contains part [] = starts_with part []
contains part (c ∷ cs) = starts_with part (c ∷ cs) || contains part cs

abbrev pub is_digit : ℕ → Bool
is_digit c = leb b'0' c && leb c b'9'

-- the characters that `trim` removes
abbrev pub is_space : ℕ → Bool
is_space c =
    (leb 9 c && leb c 13)
    || nat_eq c 32
    || nat_eq c 0xa0
    || nat_eq c 0x1680
    || (leb 0x2000 c && leb c 0x200a)
    || nat_eq c 0x2028
    || nat_eq c 0x2029
    || nat_eq c 0x202f
    || nat_eq c 0x205f
    || nat_eq c 0x3000
    || nat_eq c 0xfeff

-- `lines.join(separator)`
abbrev pub join : String → List String → String
join separator [] = ""
join separator (x ∷ []) = x
join separator (x ∷ y ∷ ys) = String.◌++◌ x (String.◌++◌ separator (join separator (y ∷ ys)))

unfoldable pub digit : ℕ → String
digit zero = "0"
digit (suc zero) = "1"
digit (suc (suc zero)) = "2"
digit (suc (suc (suc zero))) = "3"
digit (suc (suc (suc (suc zero)))) = "4"
digit (suc (suc (suc (suc (suc zero))))) = "5"
digit (suc (suc (suc (suc (suc (suc zero)))))) = "6"
digit (suc (suc (suc (suc (suc (suc (suc zero))))))) = "7"
digit (suc (suc (suc (suc (suc (suc (suc (suc zero)))))))) = "8"
digit _ = "9"

-- A number has at most as many digits as its value and one more.
unfoldable pub show_within : ℕ → ℕ → String
show_within zero n = ""
show_within (suc f) n =
    let front = show_within f (n / 10) in
    if leb 10 n then String.◌++◌ front (digit (n % 10)) else digit n

-- `${n}`
unfoldable pub show : ℕ → String
unfolding show_within digit
show n = show_within (suc n) n

show_test : show 1024 ≡ "1024"
unfolding show
show_test = refl

-- A template text: its parts joined.
infixr 65 ◌+++◌
abbrev pub ◌+++◌ : String → String → String
s +++ t = String.◌++◌ s t
