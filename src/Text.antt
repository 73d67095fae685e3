-- ===== src/Text.antt =====
-- `trim` and `trim_end_matches` of the standard library's `str`, and which texts an HTTP header can
-- carry as text.
use pincerbell.Base.{
  ℕ, Bool, ◌&&◌, ◌||◌, String, ◌==◌, string_eq, if◌then◌else◌, leb, ltb, true, nat_beq,
}
use Prim.Native.Char.{code}

-- The characters with the Unicode property White_Space.
unfoldable pub is_white_space : ℕ → Bool
is_white_space c =
    (leb 9 c && leb c 13)
    || nat_beq c 32
    || nat_beq c 133
    || nat_beq c 160
    || nat_beq c 5760
    || (leb 8192 c && leb c 8202)
    || nat_beq c 8232
    || nat_beq c 8233
    || nat_beq c 8239
    || nat_beq c 8287
    || nat_beq c 12288

unfoldable pub trim_start : String → String
unfolding is_white_space
trim_start String.[] = ""
trim_start (String.◌∷◌ c s) =
    let rest = trim_start s in if is_white_space (code c) then rest else String.◌∷◌ c s

unfoldable pub trim_end_while : (ℕ → Bool) → String → String
trim_end_while p String.[] = ""
trim_end_while p (String.◌∷◌ c s) =
    let rest = trim_end_while p s in if rest == "" && p (code c) then "" else String.◌∷◌ c rest

unfoldable pub trim : String → String
unfolding trim_start trim_end_while is_white_space
trim s = trim_end_while is_white_space (trim_start s)

-- With '/' for the character.
unfoldable pub trim_end_slashes : String → String
unfolding trim_end_while
trim_end_slashes s = trim_end_while (nat_beq 47) s

-- The characters that `HeaderValue::to_str` is documented to accept: visible ASCII, which has the
-- space, and the tab.
unfoldable pub visible_ascii : String → Bool
visible_ascii String.[] = true
visible_ascii (String.◌∷◌ c s) =
    let rest = visible_ascii s in
    ((leb 32 (code c) && ltb (code c) 127) || nat_beq (code c) 9) && rest
