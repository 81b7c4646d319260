-- ===== src/K3s/Quoting.antt =====
-- What a shell reads from the commands of internal/k3s/commands.go.
use mathlib.Core.Option
use provider_k3s.Base.{
  ℕ, ◌≢◌, true, false, none, some, List, [], ◌∷◌, ◌++◌, append_assoc, append-nil, Text, All, Lacks,
  ◌≡◌, refl, ap, ◌∙◌, arith, text_eq,
}
use provider_k3s.Strings.{join}
use provider_k3s.K3s.Shell.{scan, tick, blank, flush}
use provider_k3s.K3s.Commands.{space}

-- Inside quotes a text is taken as it stands.
pub scan-append_quoted :
    (w v rest : Text)
    → Lacks tick v
    → scan true (some w) (v ++ rest) ≡ scan true (some (w ++ v)) rest
unfolding scan
scan-append_quoted w [] rest h = rw append-nil
scan-append_quoted w (c ∷ v) rest (hc, h) =
    ground (arith, scan-append_quoted (w ++ c ∷ []) v rest h, append_assoc w (c ∷ []) v)

-- A name with neither quotes nor blanks extends the word.
abbrev pub IsPlain : Text → Type 0
IsPlain = All (λ c. (c ≢ tick) × (c ≢ blank))

scan-append_plain :
    (w v rest : Text)
    → IsPlain v
    → scan false (some w) (v ++ rest) ≡ scan false (some (w ++ v)) rest
unfolding scan
scan-append_plain w [] rest h = rw append-nil
scan-append_plain w (c ∷ v) rest ((hc, hb), h) =
    ground (arith, scan-append_plain (w ++ c ∷ []) v rest h, append_assoc w (c ∷ []) v)

-- The part `p` of a command, before a blank, is one word and spells `w`.
abbrev pub Reads : Text → Text → Type 0
Reads p w =
    (rest : Text)
    → scan false none (p ++ blank ∷ rest) ≡ Option.map (flush (some w)) (scan false none rest)

scan_first :
    (c : ℕ) (s : Text)
    → c ≢ tick
    → c ≢ blank
    → scan false none (c ∷ s) ≡ scan false (some (c ∷ [])) s
unfolding scan
scan_first c s ht hb = ground arith

scan_quoted_run :
    (w v rest : Text)
    → Lacks tick v
    → scan false (some w) (tick ∷ (v ++ tick ∷ rest)) ≡ scan false (some (w ++ v)) rest
scan_quoted_run w v rest h = unfold scan in scan-append_quoted w v (tick ∷ rest) h

scan-blank :
    (w rest : Text)
    → scan false (some w) (blank ∷ rest) ≡ Option.map (flush (some w)) (scan false none rest)
unfolding scan
scan-blank w rest = refl

-- NAME='value' is one word.
pub Reads-quoted :
    (c : ℕ) (name v : Text)
    → IsPlain (c ∷ name)
    → Lacks tick v
    → Reads (c ∷ (name ++ tick ∷ (v ++ tick ∷ []))) (c ∷ (name ++ v))
Reads-quoted c name v ((ht, hb), h) hv rest = simp append_assoc (
    scan_first c _ ht hb
    ∙ scan-append_plain (c ∷ []) name _ h
    ∙ scan_quoted_run (c ∷ name) v (blank ∷ rest) hv
    ∙ scan-blank (c ∷ (name ++ v)) rest)

-- The parts of a list spell the words of another, one by one.
abbrev pub Readings : List Text → List Text → Type 0
Readings [] [] = Unit
Readings [] (w ∷ ws) = ⊥
Readings (p ∷ ps) [] = ⊥
Readings (p ∷ ps) (w ∷ ws) = Reads p w × Readings ps ws

unfoldable pub prepend : List Text → Option.Option (List Text) → Option.Option (List Text)
prepend ws = Option.map (λ rest. ws ++ rest)

prepend-flush :
    (w : Text) (ws : List Text) (o : Option.Option (List Text))
    → Option.map (flush (some w)) (prepend ws o) ≡ prepend (w ∷ ws) o
unfolding prepend
prepend-flush w ws none = refl
prepend-flush w ws (some _) = refl

pub scan-join :
    (p : Text) (ps : List Text) (w : Text) (ws : List Text) (rest : Text)
    → Readings (p ∷ ps) (w ∷ ws)
    → scan false none (join (p ∷ ps) space ++ blank ∷ rest)
      ≡ prepend (w ∷ ws) (scan false none rest)
unfolding join
scan-join p [] w [] rest (h, _) = h rest ∙ unfold prepend in refl
scan-join p [] w (v ∷ ws) rest (_, hs) = absurd hs
scan-join p (q ∷ ps) w [] rest (_, hs) = absurd hs
scan-join p (q ∷ ps) w (v ∷ ws) rest (h, hs) = simp append_assoc (
    h _
    ∙ ap (Option.map (flush (some w))) (scan-join q ps v ws rest hs)
    ∙ prepend-flush w (v ∷ ws) _)

pub Readings-append :
    (ps ws qs vs : List Text) → Readings ps ws → Readings qs vs → Readings (ps ++ qs) (ws ++ vs)
Readings-append [] [] qs vs _ k = k
Readings-append [] (w ∷ ws) qs vs h k = absurd h
Readings-append (p ∷ ps) [] qs vs h k = absurd h
Readings-append (p ∷ ps) (w ∷ ws) qs vs (hp, h) k = (hp, Readings-append ps ws qs vs h k)
