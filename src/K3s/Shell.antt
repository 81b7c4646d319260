-- ===== src/K3s/Shell.antt =====
-- How a POSIX shell cuts a command into words, as far as single quotes go: an independent reading
-- of what the builders write. Blanks end a word, a quoted run is taken as it stands, and quotes
-- join what they touch. An operator that stands between blanks is a word.
use provider_k3s.Base.{
  ℕ, Bool, true, false, Option, none, some, List, [], ◌∷◌, ◌++◌, Text, ◌==◌, nat_eq,
}
use mathlib.Core.Option

abbrev pub blank : ℕ
blank = b' '

abbrev pub tick : ℕ
tick = b'\''

-- A word that has begun ends.
abbrev pub flush : Option Text → List Text → List Text
flush none words = words
flush (some w) words = w ∷ words

abbrev pub extend : Option Text → ℕ → Option Text
extend none c = some (c ∷ [])
extend (some w) c = some (w ++ c ∷ [])

abbrev pub begin : Option Text → Option Text
begin none = some []
begin (some w) = some w

-- The flag says whether the text stands inside quotes; `none` is an unfinished quote.
unfoldable pub scan : Bool → Option Text → Text → Option (List Text)
scan true word [] = none
scan false word [] = some (flush word [])
scan true word (c ∷ s) = elim (c == tick) [
  | true ↦ scan false word s
  | false ↦ scan true (extend word c) s
]
scan false word (c ∷ s) = elim (c == tick) [
  | true ↦ scan true (begin word) s
  | false ↦ elim (c == blank) [
    | true ↦ Option.map (flush word) (scan false none s)
    | false ↦ scan false (extend word c) s
  ]
]

unfoldable pub shell_words : Text → Option (List Text)
unfolding scan
shell_words s = scan false none s
