-- ===== src/Prelude/Names.antt =====
-- Text as DNS names use it: ASCII lower case, and the stripping of trailing dots. On ASCII names
-- these are `str.lower()` and `str.rstrip('.')`.
use Prim.Native.Nat.{ℕ, ◌+◌}
use Prim.Native.Char.{Char, code, IsScalar}
use Prim.Native.String
use Prim.Native.String.{String, [], ◌∷◌}
use mathlib.Core.Path.{◌≡◌, refl, ap₂}
use mathlib.Core.Bool.{Bool, false, not, ◌&&◌}
use native.Mathlib.Omega.{arith}
use text.Mathlib.TextEquality.{Char-path}
use polaris_gslb.Prelude.Tests.{leb, eqb, if◌then◌else◌}

unfoldable pub lower_code : ℕ → ℕ
lower_code n = if leb 65 n && leb n 90 then n + 32 else n

pub lower_code-IsScalar : (n : ℕ) → IsScalar n → IsScalar (lower_code n)
unfolding lower_code
lower_code-IsScalar n h = ground arith

lower_code_idem : (n : ℕ) → lower_code (lower_code n) ≡ lower_code n
unfolding lower_code
lower_code_idem n = ground arith

unfoldable pub lower_char : Char → Char
unfolding lower_code
lower_char (Char.char n s) = Char.char (lower_code n) (lower_code-IsScalar n s)

lower_char_idem : (c : Char) → lower_char (lower_char c) ≡ lower_char c
unfolding lower_char
lower_char_idem (Char.char n s) = Char-path _ _ (lower_code_idem n)

-- s.lower()
unfoldable pub lower : String → String
unfolding lower_char
lower [] = []
lower (c ∷ s) = lower_char c ∷ lower s

pub lower_idem : (s : String) → lower (lower s) ≡ lower s
unfolding lower
lower_idem [] = refl
lower_idem (c ∷ s) = ap₂ ◌∷◌ (lower_char_idem c) (lower_idem s)

abbrev strip_before : Char → String → String
strip_before c [] = if eqb (code c) 46 then [] else c ∷ []
strip_before c (d ∷ s) = c ∷ d ∷ s

-- s.rstrip('.')
unfoldable pub rstrip_dots : String → String
rstrip_dots [] = []
rstrip_dots (c ∷ s) = strip_before c (rstrip_dots s)

lower-example : lower (rstrip_dots "WWW.Test.org..") ≡ "www.test.org"
unfolding lower rstrip_dots
lower-example = refl

-- path.startswith('/')
abbrev pub starts_with_slash : String → Bool
starts_with_slash [] = false
starts_with_slash (c ∷ s) = eqb (code c) 47

-- '/{}'.format(path)
abbrev pub prepend_slash : String → String
prepend_slash path = String.◌++◌ "/" path

-- s + t
abbrev pub append_text : String → String → String
append_text [] t = t
append_text (c ∷ s) t = c ∷ append_text s t

-- whether os.path.join puts a slash between the path and the next part
unfoldable pub wants_slash : String → Bool
wants_slash [] = false
wants_slash (c ∷ []) = not (eqb (code c) 47)
wants_slash (c ∷ d ∷ s) = wants_slash (d ∷ s)

-- os.path.join, of a part that does not start with a slash
unfoldable pub join : String → String → String
unfolding wants_slash
join path part = append_text path (append_text (if wants_slash path then "/" else "") part)
