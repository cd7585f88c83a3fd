-- ===== src/Maintenance/Input.antt =====
-- apps/api/src/clusters: the checks of what an operator enters. `blank` is !s.trim(), whose white
-- space is that of ECMAScript; `units` is s.length, in code units of UTF-16.
use docklane.Prelude.{
  ℕ, ◌+◌, String, Text, Bool, true, ◌&&◌, ◌||◌, List, [], ◌∷◌, codes, leb, ltb, ℕ-eq, if◌then◌else◌,
  contains,
}

abbrev spaces : List ℕ
spaces = 32 ∷ 160 ∷ 5760 ∷ 8232 ∷ 8233 ∷ 8239 ∷ 8287 ∷ 12288 ∷ 65279 ∷ []

unfoldable pub is_space : ℕ → Bool
unfolding contains
is_space c = leb 9 c && leb c 13 || leb 8192 c && leb c 8202 || contains spaces c

unfoldable pub blank_text : Text → Bool
unfolding is_space
blank_text [] = true
blank_text (c ∷ s) = is_space c && blank_text s

unfoldable pub text_units : Text → ℕ
text_units [] = 0
text_units (c ∷ s) = (if ltb c 65536 then 1 else 2) + text_units s

unfoldable pub blank : String → Bool
unfolding blank_text
blank s = blank_text (codes s)

unfoldable pub units : String → ℕ
unfolding text_units
units s = text_units (codes s)

-- generation < 1n || !actorId.trim() || !reason.trim() || reason.length > 1024
unfoldable pub unfit : ℕ → String → String → Bool
unfolding blank units
unfit generation actor_id reason =
    ltb generation 1 || blank actor_id || blank reason || ltb 1024 (units reason)
