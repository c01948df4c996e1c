-- ===== src/Base/Text.antt =====
-- `String`, `str` and `Vec<u8>` as their bytes, with the methods that the sources call.
use Prim.Native.Nat.{ℕ, zero, suc, ◌+◌, ◌-◌, ◌*◌, ◌/◌, ◌%◌, ◌≤◌, ◌<◌}
use Prim.Native.Char.{code}
use Prim.Native.String.{String}
use mathlib.Core.Path.{◌≡◌, refl}
use mathlib.Core.Logic.{◌↔◌}
use mathlib.Core.Bool.{Bool, true, false, ◌&&◌, ◌||◌}
use mathlib.Core.List.{List, [], ◌∷◌, ◌++◌}
use mathlib.Core.Option.{Option, none, some}
use native.Mathlib.Omega.{arith}
use a_hand.Base.Tests.{Eq, nat_beq, nat_eq, if◌then◌else◌, ltb}
use a_hand.Base.Lists.{All, All-append}

abbrev pub Text : Type 0
Text = List ℕ

-- The bytes of an ASCII literal.
abbrev pub codes : String → Text
codes String.[] = []
codes (String.◌∷◌ c s) = code c ∷ codes s

abbrev pub text_beq : Text → Text → Bool
text_beq [] [] = true
text_beq [] (b ∷ t) = false
text_beq (a ∷ s) [] = false
text_beq (a ∷ s) (b ∷ t) = nat_beq a b && text_beq s t

pub text_beq_iff : (s t : Text) → (text_beq s t ≡ true) ↔ (s ≡ t)
text_beq_iff [] [] = ground arith
text_beq_iff [] (b ∷ t) = ground arith
text_beq_iff (a ∷ s) [] = ground arith
text_beq_iff (a ∷ s) (b ∷ t) = ground (arith, text_beq_iff s t)

instance abbrev pub text_eq : Eq Text
text_eq = record { beq = text_beq; beq_iff = text_beq_iff }

abbrev pub is_empty : Text → Bool
is_empty [] = true
is_empty (c ∷ s) = false

-- `s.starts_with(p)`, the prefix first.
unfoldable pub starts_with : Text → Text → Bool
starts_with [] s = true
starts_with (a ∷ p) [] = false
starts_with (a ∷ p) (b ∷ s) = nat_beq a b && starts_with p s

-- `s.contains(c)` for a character.
unfoldable pub contains : ℕ → Text → Bool
contains c [] = false
contains c (a ∷ s) = nat_beq a c || contains c s

-- `s.split(c).next()`: what stands before the first `c`.
unfoldable pub before : ℕ → Text → Text
before c [] = []
before c (a ∷ s) = let rest = before c s in if nat_beq a c then [] else a ∷ rest

-- What stands after the first `c`, if there is one.
unfoldable pub after : ℕ → Text → Option Text
after c [] = none
after c (a ∷ s) = if nat_beq a c then some s else after c s

-- `s.rsplit(c).next()`: what stands after the last `c`.
unfoldable pub after_last : ℕ → Text → Text
after_last c [] = []
after_last c (a ∷ s) =
    let rest = after_last c s in if contains c s then rest else (if nat_beq a c then s else a ∷ s)

starts_with-append : (p s : Text) → starts_with p (p ++ s) ≡ true
unfolding starts_with
starts_with-append [] s = refl
starts_with-append (a ∷ p) s = ground (arith, starts_with-append p s)

-- The decimal digits of a number, with as much fuel as the number is large.
digits_from : ℕ → ℕ → Text
digits_from zero n = []
digits_from (suc f) n =
    let rest = digits_from f (n / 10) in
    if ltb n 10 then (48 + n) ∷ [] else rest ++ ((48 + n % 10) ∷ [])

unfoldable pub decimal : ℕ → Text
unfolding digits_from
decimal n = digits_from (suc n) n

-- The number that a row of digits stands for, after those read so far.
value_from : ℕ → Text → ℕ
value_from acc [] = acc
value_from acc (c ∷ s) = value_from (acc * 10 + (c - 48)) s

pub value : Text → ℕ
unfolding value_from
value s = value_from 0 s

value_from-append :
    (acc : ℕ) (s : Text) (c : ℕ) → value_from acc (s ++ (c ∷ [])) ≡ value_from acc s * 10 + (c - 48)
unfolding value_from
value_from-append acc [] c = refl
value_from-append acc (a ∷ s) c = value_from-append (acc * 10 + (a - 48)) s c

value-digits_from : (f n : ℕ) → n < f → value_from 0 (digits_from f n) ≡ n
unfolding value_from digits_from
value-digits_from zero n h = elim h [ ]
value-digits_from (suc f) n h = ground (
  arith,
  value-digits_from f (n / 10),
  value_from-append 0 (digits_from f (n / 10)) (48 + n % 10),
)

-- Reading the digits of a number gives it back.
pub value-decimal : (n : ℕ) → value (decimal n) ≡ n
unfolding value decimal
value-decimal n = value-digits_from (suc n) n (omega arith)

abbrev pub IsDigit : ℕ → Type 0
IsDigit c = (48 ≤ c) × (c < 58)

digits_from-IsDigit : (f n : ℕ) → All IsDigit (digits_from f n)
unfolding digits_from
digits_from-IsDigit zero n = tt
digits_from-IsDigit (suc f) n = ground (
  arith,
  digits_from-IsDigit f (n / 10),
  All-append IsDigit (digits_from f (n / 10)) ((48 + n % 10) ∷ []),
)

pub decimal-IsDigit : (n : ℕ) → All IsDigit (decimal n)
unfolding decimal
decimal-IsDigit n = digits_from-IsDigit (suc n) n

-- Texts that hold no separator are read back from what follows them.
pub before-append : (c : ℕ) (s t : Text) → All (λ a. a ≡ c → ⊥) s → before c (s ++ (c ∷ t)) ≡ s
unfolding before
before-append c [] t h = ground arith
before-append c (a ∷ s) t h = ground (arith, before-append c s t h.1)
