-- ===== src/Access/Strip.antt =====
-- Python's `str.strip`, on the characters that `str.isspace` counts as blank.
use Prim.Native.Char.{Char, code}
use Prim.Native.String.{String, [], ◌∷◌}
use k8s_ops.Prelude.{Bool, ◌&&◌, ◌||◌, if◌then◌else◌, leb, eqb}

unfoldable is_space : Char → Bool
is_space c =
    let n = code c in
    (leb 9 n && leb n 13)
    || (leb 28 n && leb n 32)
    || eqb n 133
    || eqb n 160
    || eqb n 5760
    || (leb 8192 n && leb n 8202)
    || eqb n 8232
    || eqb n 8233
    || eqb n 8239
    || eqb n 8287
    || eqb n 12288

unfoldable strip_start : String → String
unfolding is_space
strip_start [] = []
strip_start (c ∷ s) = let rest = strip_start s in if is_space c then rest else c ∷ s

unfoldable add_before : Char → String → String
unfolding is_space
add_before c [] = if is_space c then [] else c ∷ []
add_before c (d ∷ s) = c ∷ d ∷ s

unfoldable strip_end : String → String
unfolding add_before
strip_end [] = []
strip_end (c ∷ s) = add_before c (strip_end s)

unfoldable pub strip : String → String
unfolding strip_start strip_end
strip s = strip_end (strip_start s)
