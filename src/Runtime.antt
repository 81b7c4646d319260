-- ===== src/Runtime.antt =====
-- What the controllers take from elsewhere: the metadata of an object, the Kubernetes client, the
-- retry of client-go, the SSH client of a reconcile, and the Ready condition.
use provider_k3s.Base.{
  Option, some, Text, codes, text_eq, ◌≡◌, ◌≢◌, Error, foreign, conflict, Result,
}

-- xpv2.Available, Creating and Deleting: the values of the Ready condition that are set.
pub data ReadyCondition : Type 0 where
  available creating deleting : ReadyCondition

abbrev pub external_name_key : Text
external_name_key = codes "crossplane.io/external-name"

-- Object metadata, through apimachinery's accessors and crossplane-runtime's package meta.
pub record MetaApi : Type 1 where
  pub Meta : Type 0
  pub namespace : Meta → Text
  pub name : Meta → Text
  pub get_annotation : Meta → Text → Option Text
  pub add_annotation : Meta → Text → Text → Meta
  pub get_external_name : Meta → Text
  pub set_external_name : Meta → Text → Meta

-- What is documented of them.
pub record IsMetaApi (api : MetaApi) : Type 0 where
  pub get_annotation-add :
      (m : api.Meta) (k v : Text) → api.get_annotation (api.add_annotation m k v) k ≡ some v
  pub name-add : (m : api.Meta) (k v : Text) → api.name (api.add_annotation m k v) ≡ api.name m
  pub namespace-add :
      (m : api.Meta) (k v : Text) → api.namespace (api.add_annotation m k v) ≡ api.namespace m
  pub get_external_name-set :
      (m : api.Meta) (n : Text) → api.get_external_name (api.set_external_name m n) ≡ n
  pub get_annotation-set_external_name :
      (m : api.Meta) (n k : Text)
      → k ≢ external_name_key
      → api.get_annotation (api.set_external_name m n) k ≡ api.get_annotation m k

-- What `Execute` returns: stdout, stderr and the error.
pub record Reply : Type 0 where
  pub stdout : Text
  pub stderr : Text
  pub error : Option Error

-- The SSH client, over a world that holds the host.
pub record SshClient (W : Type 0) : Type 0 where
  pub execute : W → Text → Reply × W
  pub close : W → Option Error × W

-- client.ObjectKey
abbrev pub Key : Type 0
Key = Text × Text

-- Get and Update of client.Client on one kind of object, over the same world.
pub record KubeClient (W Object : Type 0) : Type 0 where
  pub get : W → Key → Result Object
  pub update : W → Object → Option Error × W

-- An attempt is a function on a state that it leaves changed, also where it fails.
abbrev pub Attempt : Type 0 → Type 0
Attempt S = S → Option Error × S

-- The states that attempts which failed with a conflict lead to.
pub data Conflicting {S : Type 0} (attempt : Attempt S) (s : S) : S → Type 0 where
  first : Conflicting attempt s s
  again :
      {t u : S} (message : Text)
      → Conflicting attempt s t
      → attempt t ≡ (some (foreign conflict message), u)
      → Conflicting attempt s u

-- retry.RetryOnConflict with a backoff: it makes at least one attempt, makes another only behind a
-- conflict, and returns what the last one returned.
pub record Retry (S : Type 0) : Type 0 where
  pub retry : Attempt S → S → Option Error × S
  pub last_attempt :
      (attempt : Attempt S) (s : S)
      → (t : S) × Conflicting attempt s t × (retry attempt s ≡ attempt t)
