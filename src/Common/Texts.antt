-- ===== src/Common/Texts.antt =====
-- What the source does with texts beyond comparing them.
use Prim.Native.Char.{code}
use Prim.Native.Nat.{ℕ}
use Prim.Native.String.{String}
use text.Mathlib.Text.{◌==◌ as str_eq}
use mathlib.Core.Bool.{Bool, true, false}
use big_project.Common.Tests.{if◌then◌else◌, ◌==◌}

-- A text is falsy exactly when it is empty.
abbrev pub is_empty : String → Bool
is_empty s = str_eq s ""

-- `s.split(c)[0]`: what stands before the first `c`, or the whole text.
unfoldable pub before : ℕ → String → String
before c String.[] = String.[]
before c (String.◌∷◌ d s) =
    let rest = before c s in if code d == c then String.[] else String.◌∷◌ d rest

-- `s.includes(c)` for one character.
unfoldable pub includes_char : ℕ → String → Bool
includes_char c String.[] = false
includes_char c (String.◌∷◌ d s) = if code d == c then true else includes_char c s
