-- ===== src/Ssh/Redact.antt =====
-- `redactSecrets` of internal/clients/ssh/client.go, with the two patterns as matchers. Neither pattern has to
-- go back: what follows a run of characters never starts with one of them.
use provider_k3s.Base.{
  ℕ, zero, suc, Bool, true, false, ◌&&◌, ◌||◌, not, Option, none, some, List, [], ◌∷◌, ◌++◌, Text,
  codes, ◌==◌, nat_eq, leb, length, if◌then◌else◌, ◌≡◌, refl,
}
use provider_k3s.Strings.{cut_prefix}
pub mod Local
pub mod Free
pub mod Fuel

abbrev pub redacted_placeholder : Text
redacted_placeholder = codes "[REDACTED]"

abbrev pub is_digit : ℕ → Bool
is_digit c = leb 0x30 c && leb c 0x39

abbrev pub is_upper : ℕ → Bool
is_upper c = leb 0x41 c && leb c 0x5a

abbrev pub is_lower : ℕ → Bool
is_lower c = leb 0x61 c && leb c 0x7a

-- [A-Z0-9 ]
abbrev pub is_label : ℕ → Bool
is_label c = is_upper c || is_digit c || c == 0x20

-- [0-9a-fA-F]
abbrev pub is_hex : ℕ → Bool
is_hex c = is_digit c || (leb 0x61 c && leb c 0x66) || (leb 0x41 c && leb c 0x46)

-- [0-9A-Za-z]
abbrev pub is_alnum : ℕ → Bool
is_alnum c = is_digit c || is_upper c || is_lower c

-- The longest run of a class at the start of a text: its length, and the rest.
unfoldable pub run_of : (ℕ → Bool) → Text → ℕ × Text
run_of class [] = (0, [])
run_of class (c ∷ s) =
    let (n, rest) = run_of class s in if class c then (suc n, rest) else (0, c ∷ s)

-- What stands behind a run of at least `least` characters.
unfoldable pub behind_run : (ℕ → Bool) → ℕ → Text → Option Text
unfolding run_of
behind_run class least s = let (n, rest) = run_of class s in if leb least n then some rest else none

infixl 10 ◌>?>◌
abbrev pub ◌>?>◌ : Option Text → (Text → Option Text) → Option Text
none >?> next = none
some s >?> next = next s

-- `head`, then [A-Z0-9 ]+, then the dashes.
unfoldable pub behind_marker : Text → Text → Option Text
unfolding behind_run cut_prefix
behind_marker head s =
    cut_prefix s head >?> behind_run is_label 1 >?> λ rest. cut_prefix rest (codes "-----")

-- The shortest text up to the end marker.
unfoldable pub behind_end : Text → Option Text
unfolding behind_marker
behind_end [] = none
behind_end (c ∷ s) =
    let later = behind_end s in
    elim (behind_marker (codes "-----END ") (c ∷ s)) [ some rest ↦ some rest | none ↦ later ]

-- What stands behind key or certificate material at the start of a text.
unfoldable pub behind_pem : Text → Option Text
unfolding behind_end
behind_pem s = behind_marker (codes "-----BEGIN ") s >?> behind_end

abbrev pub behind_role : Text → Option Text
behind_role s = elim (cut_prefix s (codes "server")) [
  | some rest ↦ some rest
  | none ↦ cut_prefix s (codes "node")
]

-- What stands behind a join token at the start of a text.
unfoldable pub behind_token : Text → Option Text
unfolding behind_run cut_prefix
behind_token s = cut_prefix s (codes "K10") >?> behind_run is_hex 20 >?> λ a.
    cut_prefix a (codes "::") >?> behind_role >?> λ b.
    cut_prefix b (codes ":") >?> behind_run is_alnum 10

-- ReplaceAllString with the placeholder. Each round consumes a character, so the length of the text is fuel enough.
unfoldable pub redact_fuel : ℕ → (Text → Option Text) → Text → Text
redact_fuel zero behind s = s
redact_fuel (suc f) behind [] = []
redact_fuel (suc f) behind (c ∷ s) = elim (behind (c ∷ s)) [
  | none ↦ c ∷ redact_fuel f behind s
  | some rest ↦ redacted_placeholder ++ redact_fuel f behind rest
]

unfoldable pub redact : (Text → Option Text) → Text → Text
unfolding redact_fuel
redact behind s = redact_fuel (length s) behind s

unfoldable pub redact_secrets : Text → Text
unfolding behind_pem behind_token redact
redact_secrets s = redact behind_token (redact behind_pem s)
