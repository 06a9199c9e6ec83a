-- ===== src/Tests/Codes.antt =====
-- Texts as the lists of their characters' numbers: an encoding for the tests of the wire form.
use Prim.Native.Nat.{Ordering, compare}
use Prim.Native.Char.{char, code, IsLt, IsScalar}
use Prim.Native.String.{String, [] as no_text, ◌∷◌ as ◌then◌}
use text.Mathlib.TextEquality.{Char-path}
use hyperswarm.Base.{ℕ, ◌≡◌, refl, ap, Option, none, some, List, [], ◌∷◌}

-- The helpers of `IsScalar`, whose own are private.
abbrev BelowBoth : Ordering → Ordering → Type 0
BelowBoth Ordering.lt o = IsLt o
BelowBoth Ordering.eq _ = ⊥
BelowBoth Ordering.gt _ = ⊥

abbrev Outside : Ordering → Ordering → Ordering → Type 0
Outside Ordering.lt _ _ = Unit
Outside Ordering.eq o p = BelowBoth o p
Outside Ordering.gt o p = BelowBoth o p

abbrev is_lt : (o : Ordering) → Dec (IsLt o)
is_lt Ordering.lt = yes tt
is_lt Ordering.eq = no (λ h. h)
is_lt Ordering.gt = no (λ h. h)

abbrev is_below_both : (o p : Ordering) → Dec (BelowBoth o p)
is_below_both Ordering.lt p = is_lt p
is_below_both Ordering.eq p = no (λ h. h)
is_below_both Ordering.gt p = no (λ h. h)

abbrev is_outside : (o p q : Ordering) → Dec (Outside o p q)
is_outside Ordering.lt p q = yes tt
is_outside Ordering.eq p q = is_below_both p q
is_outside Ordering.gt p q = is_below_both p q

abbrev is_scalar : (n : ℕ) → Dec (IsScalar n)
is_scalar n = is_outside (compare n 55296) (compare 57343 n) (compare n 1114112)

abbrev prepend : (n : ℕ) → Dec (IsScalar n) → Option String → Option String
prepend n (yes p) (some text) = some (char n p then text)
prepend _ _ _ = none

abbrev pub codes : String → List ℕ
codes no_text = []
codes (c then text) = code c ∷ codes text

abbrev pub text_of : List ℕ → Option String
text_of [] = some no_text
text_of (n ∷ ns) = prepend n (is_scalar n) (text_of ns)

prepend-code :
    (n : ℕ) (p : IsScalar n) (d : Dec (IsScalar n)) (text : String)
    → prepend n d (some text) ≡ some (char n p then text)
prepend-code n p (yes p') text = ap (λ c. some (c then text)) (Char-path _ _ refl)
prepend-code n p (no not) text = absurd (not p)

pub text_of-codes : (text : String) → text_of (codes text) ≡ some text
text_of-codes no_text = refl
text_of-codes (char n p then text) = rw (text_of-codes text) (prepend-code n p (is_scalar n) text)
