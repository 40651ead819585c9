-- ===== src/Prelude/Strings.antt =====
-- `str` as the list of its characters (Unicode scalar values). `len` is the length in bytes of its
-- UTF-8 form, as Rust's `str::len` is.
use Prim.Native.Nat.{ℕ, ◌+◌}
use Prim.Native.Char.{code}
use Prim.Native.String.{String}
use mathlib.Core.Bool.{Bool, ◌&&◌, ◌||◌}
use mathlib.Core.List.{List, [], ◌∷◌}
use nvim_remote_mirror.Prelude.Tests.{ltb, leb, ◌==◌, if◌then◌else◌}
use nvim_remote_mirror.Prelude.Lists.{any}

abbrev pub Text : Type 0
Text = List ℕ

abbrev pub codes : String → Text
codes String.[] = []
codes (String.◌∷◌ c s) = code c ∷ codes s

-- `char::len_utf8`
abbrev pub len_utf8 : ℕ → ℕ
len_utf8 c = if ltb c 0x80 then 1 else if ltb c 0x800 then 2 else if ltb c 0x10000 then 3 else 4

-- `str::len`
abbrev pub len : Text → ℕ
len [] = 0
len (c ∷ s) = len_utf8 c + len s

-- `str::contains` of one character
abbrev pub contains : ℕ → Text → Bool
contains c s = any (λ x. x == c) s

-- `str::starts_with` of one character
abbrev pub starts_with : ℕ → Text → Bool
starts_with c [] = Bool.false
starts_with c (x ∷ s) = x == c

-- `char::is_control`: the general category Cc
abbrev pub is_control : ℕ → Bool
is_control c = ltb c 0x20 || (leb 0x7f c && leb c 0x9f)

-- Puts a character before the first piece.
abbrev pub cons_head : ℕ → List Text → List Text
cons_head c [] = (c ∷ []) ∷ []
cons_head c (p ∷ ps) = (c ∷ p) ∷ ps

-- `str::split` at one character: one piece more than there are separators
unfoldable pub split : ℕ → Text → List Text
split sep [] = [] ∷ []
split sep (c ∷ s) = let rest = split sep s in if c == sep then [] ∷ rest else cons_head c rest
