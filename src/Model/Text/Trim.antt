-- ===== src/Model/Text/Trim.antt =====
-- `str::trim` and `str::len`.
use picasu.Prelude.{ℕ, ◌+◌, Bool, ◌&&◌, ◌||◌, [], ◌∷◌, ltb, leb, ◌==◌, if◌then◌else◌}
use picasu.Model.Text.{Text}

-- `char::is_whitespace`: the code points with Unicode's property White_Space.
abbrev pub is_whitespace : ℕ → Bool
is_whitespace c =
    leb 9 c && leb c 13
    || c == 32
    || c == 133
    || c == 160
    || c == 5760
    || leb 8192 c && leb c 8202
    || c == 8232
    || c == 8233
    || c == 8239
    || c == 8287
    || c == 12288

unfoldable pub trim_start : Text → Text
trim_start [] = []
trim_start (c ∷ cs) = let rest = trim_start cs in if is_whitespace c then rest else c ∷ cs

abbrev pub drop_blank : ℕ → Text → Text
drop_blank c [] = if is_whitespace c then [] else c ∷ []
drop_blank c (d ∷ ds) = c ∷ d ∷ ds

unfoldable pub trim_end : Text → Text
trim_end [] = []
trim_end (c ∷ cs) = drop_blank c (trim_end cs)

unfoldable pub trim : Text → Text
trim text = trim_end (trim_start text)

-- The bytes of a code point in UTF-8.
abbrev len_utf8 : ℕ → ℕ
len_utf8 c = if ltb c 128 then 1 else if ltb c 2048 then 2 else if ltb c 65536 then 3 else 4

unfoldable pub len : Text → ℕ
len [] = 0
len (c ∷ cs) = len_utf8 c + len cs
