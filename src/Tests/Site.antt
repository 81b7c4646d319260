-- ===== src/Tests/Site.antt =====
-- A host of two commands with a store of one object, metadata that meets the laws, and pieces of encodings.
use provider_k3s.Base.{
  ℕ, zero, suc, Bool, true, false, ◌&&◌, Option, none, some, List, [], ◌∷◌, ◌++◌, Text, codes,
  length, ◌==◌, text_eq, text_beq_iff, text_beq_refl, text_beq_ne, ◌≡◌, refl, ap, sym, plain,
  Result, ok, err, if◌then◌else◌, arith,
}
use provider_k3s.Strings.{has_prefix}
use provider_k3s.Runtime.{
  MetaApi, IsMetaApi, external_name_key, Reply, SshClient, KubeClient, Key, Retry, first,
}
use provider_k3s.Applied.{Managed, or_empty}
use provider_k3s.Applied.Persisted.{IsKubeClient}

-- A text is encoded behind its length.
abbrev pub put : Text → Text → Text
put s rest = length s ∷ (s ++ rest)

abbrev pub take_drop : ℕ → Text → Text × Text
take_drop zero s = ([], s)
take_drop (suc n) [] = ([], [])
take_drop (suc n) (c ∷ s) = let (a, b) = take_drop n s in (c ∷ a, b)

pub take_drop-length : (s rest : Text) → take_drop (length s) (s ++ rest) ≡ (s, rest)
take_drop-length [] rest = refl
take_drop-length (c ∷ s) rest = ap (λ (p : Text × Text). (c ∷ p.0, p.1)) (take_drop-length s rest)

abbrev pub get_text : Text → Text × Text
get_text [] = ([], [])
get_text (n ∷ s) = take_drop n s

abbrev pub bit : Bool → Text
bit true = 1 ∷ []
bit false = []

abbrev pub is_bit : Text → Bool
is_bit [] = false
is_bit (b ∷ s) = true

pub bit-is_bit : (b : Bool) → is_bit (bit b) ≡ b
bit-is_bit true = refl
bit-is_bit false = refl

-- Object metadata as its annotations. Its name and namespace are fixed.
abbrev pub find : List (Text × Text) → Text → Option Text
find [] k = none
find ((l, v) ∷ entries) k = if l == k then some v else find entries k

abbrev pub demo_meta : MetaApi
demo_meta = record {
  Meta = List (Text × Text);
  namespace = λ _. codes "default";
  name = λ _. codes "demo";
  get_annotation = find;
  add_annotation = λ m k v. (k, v) ∷ m;
  get_external_name = λ m. or_empty (find m external_name_key);
  set_external_name = λ m n. (external_name_key, n) ∷ m;
}

pub demo_meta-IsMetaApi : IsMetaApi demo_meta
demo_meta-IsMetaApi = record {
  get_annotation-add = λ m k v. rw (text_beq_refl k) refl;
  name-add = λ m k v. refl;
  namespace-add = λ m k v. refl;
  get_external_name-set = λ m n. rw (text_beq_refl external_name_key) refl;
  get_annotation-set_external_name =
      λ m n k h. rw (text_beq_ne external_name_key k (λ e. h (sym e))) refl;
}

-- The stored object and what systemd says of the unit.
pub record Site (P O : Type 0) : Type 0 where
  pub stored : Managed demo_meta.Meta P O
  pub unit : Text

abbrev pub replied : Text → Reply
replied out = record { stdout = out; stderr = []; error = none }

module _ {P O : Type 0} where
  -- The script starts the unit, and every command prints what systemd says of it.
  abbrev pub demo_ssh : SshClient (Site P O)
  demo_ssh = record {
    execute = λ w command. (
      replied w.unit,
      if has_prefix command (codes "curl") then record w { unit = codes "loaded\nactive\n" } else w,
    );
    close = λ w. (none, w);
  }

  abbrev pub same_key : Managed demo_meta.Meta P O → Key → Bool
  same_key cr key = demo_meta.namespace cr.meta == key.0 && demo_meta.name cr.meta == key.1

  abbrev pub get_site : Site P O → Key → Result (Managed demo_meta.Meta P O)
  get_site w key = if same_key w.stored key then ok w.stored else err (plain (codes "not found"))

  abbrev pub demo_kube : KubeClient (Site P O) (Managed demo_meta.Meta P O)
  demo_kube = record { get = get_site; update = λ w cr. (none, record w { stored = cr }) }

  pub get_site-key :
      (w : Site P O) (key : Key) (cr : Managed demo_meta.Meta P O)
      → get_site w key ≡ ok cr
      → Path Key (codes "default", codes "demo") key
  get_site-key w key cr h =
      ground (arith, text_beq_iff (codes "default") key.0, text_beq_iff (codes "demo") key.1)

  pub demo_kube-IsKubeClient : IsKubeClient demo_meta demo_kube
  demo_kube-IsKubeClient = record {
    get-key = get_site-key;
    get-update = λ w cr h.
        (cr, rw (text_beq_refl (codes "default"), text_beq_refl (codes "demo")) refl, λ k. refl);
  }

  abbrev pub one_attempt : Retry (Site P O × Managed demo_meta.Meta P O)
  one_attempt = record {
    retry = λ attempt s. attempt s;
    last_attempt = λ attempt s. (s, first, refl);
  }
