-- ===== src/Base/Text.antt =====
-- Python strings as native texts: characters are code points.
use Prim.Native.Nat.{ℕ, zero, suc, ◌≤◌, ◌/◌, ◌%◌}
use Prim.Native.Char.{Char, code}
use Prim.Native.String.{String, ◌++◌ as append}
use mathlib.Core.Bool.{Bool, true, false, not, ◌&&◌, ◌||◌}
use mathlib.Core.List.{List, [], ◌∷◌}
use native.Mathlib.Omega.{arith}
use text.Mathlib.Text.{◌==◌ as text_eq}
use spidey.Base.Tests.{leb, ltb, ◌==◌, if◌then◌else◌}
pub use text.Mathlib.TextEquality.{eq_iff}
pub use text.Mathlib.TextPositions.{eq_refl}

abbrev pub str_eq : String → String → Bool
str_eq s t = text_eq s t

-- `len(s)`.
abbrev pub str_len : String → ℕ
str_len String.[] = 0
str_len (String.◌∷◌ c s) = suc (str_len s)

-- `s[:n]`.
abbrev pub str_take : ℕ → String → String
str_take zero s = String.[]
str_take (suc n) String.[] = String.[]
str_take (suc n) (String.◌∷◌ c s) = String.◌∷◌ c (str_take n s)

-- `bool(s)`.
abbrev pub str_truthy : String → Bool
str_truthy String.[] = false
str_truthy (String.◌∷◌ _ _) = true

pub str_len-str_take : (n : ℕ) (s : String) → str_len (str_take n s) ≤ n
str_len-str_take zero s = omega arith
str_len-str_take (suc n) String.[] = omega arith
str_len-str_take (suc n) (String.◌∷◌ c s) = omega (arith, str_len-str_take n s)

-- The parts of an f-string, joined.
abbrev pub str_concat : List String → String
str_concat [] = String.[]
str_concat (s ∷ ss) = append s (str_concat ss)

-- `str.isspace` of one code point.
abbrev pub is_space : ℕ → Bool
is_space c =
    (leb 9 c && leb c 13)
    || (leb 28 c && leb c 32)
    || c == 0x85
    || c == 0xa0
    || c == 0x1680
    || (leb 0x2000 c && leb c 0x200a)
    || c == 0x2028
    || c == 0x2029
    || c == 0x202f
    || c == 0x205f
    || c == 0x3000

-- `s.lstrip(…)`, `s.rstrip(…)` and `s.strip(…)` for the code points that a test picks.
pub str_lstrip : (ℕ → Bool) → String → String
str_lstrip p String.[] = String.[]
str_lstrip p (String.◌∷◌ c s) = if p (code c) then str_lstrip p s else String.◌∷◌ c s

pub str_rstrip : (ℕ → Bool) → String → String
str_rstrip p String.[] = String.[]
str_rstrip p (String.◌∷◌ c s) =
    let r = str_rstrip p s in if p (code c) && not (str_truthy r) then String.[] else String.◌∷◌ c r

unfoldable pub str_strip : (ℕ → Bool) → String → String
unfolding str_lstrip str_rstrip
str_strip p s = str_rstrip p (str_lstrip p s)

-- The code points at which `str.splitlines` breaks.
abbrev is_line_break : ℕ → Bool
is_line_break c =
    (leb 10 c && leb c 13) || (leb 28 c && leb c 30) || c == 0x85 || c == 0x2028 || c == 0x2029

abbrev starts_lf : String → Bool
starts_lf String.[] = false
starts_lf (String.◌∷◌ c s) = code c == 10

abbrev push_char : Char → List String → List String
push_char c [] = String.◌∷◌ c String.[] ∷ []
push_char c (l ∷ ls) = String.◌∷◌ c l ∷ ls

-- `s.splitlines()`: `\r\n` is one break, and a break at the end begins no line.
unfoldable pub split_lines : String → List String
split_lines String.[] = []
split_lines (String.◌∷◌ c s) =
    let r = split_lines s in
    if is_line_break (code c)
    then if code c == 13 && starts_lf s then r else String.[] ∷ r
    else push_char c r

-- `sep.join(parts)`
abbrev pub str_join : String → List String → String
str_join sep [] = String.[]
str_join sep (s ∷ []) = s
str_join sep (s ∷ t ∷ ts) = append s (append sep (str_join sep (t ∷ ts)))

abbrev digit_text : ℕ → String
digit_text zero = "0"
digit_text (suc zero) = "1"
digit_text (suc (suc zero)) = "2"
digit_text (suc (suc (suc zero))) = "3"
digit_text (suc (suc (suc (suc zero)))) = "4"
digit_text (suc (suc (suc (suc (suc zero))))) = "5"
digit_text (suc (suc (suc (suc (suc (suc zero)))))) = "6"
digit_text (suc (suc (suc (suc (suc (suc (suc zero))))))) = "7"
digit_text (suc (suc (suc (suc (suc (suc (suc (suc zero)))))))) = "8"
digit_text _ = "9"

digits_of : (fuel n : ℕ) → String
digits_of zero n = ""
digits_of (suc f) n =
    let rest = digits_of f (n / 10) in
    if ltb n 10 then digit_text n else append rest (digit_text (n % 10))

-- `str(n)`: a number has fewer digits than `n + 1`.
unfoldable pub str_of_ℕ : ℕ → String
unfolding digits_of
str_of_ℕ n = digits_of (suc n) n

abbrev pub starts_with : String → String → Bool
starts_with String.[] s = true
starts_with (String.◌∷◌ c p) String.[] = false
starts_with (String.◌∷◌ c p) (String.◌∷◌ d s) = code c == code d && starts_with p s

-- `part in s`
abbrev pub str_contains : String → String → Bool
str_contains part String.[] = starts_with part String.[]
str_contains part (String.◌∷◌ c s) = starts_with part (String.◌∷◌ c s) || str_contains part s
