-- ===== src/Storage/Etcd.antt =====
-- The client of etcd, clientv3, as far as lib/cluster/etcd.go uses it.
use tt.Prelude.{
  ℕ, String, ◌<>◌, ◌≡◌, ◌≢◌, ◌↔◌, Bool, true, false, ◌&&◌, ◌||◌, Option, none, some, List, [], ◌∷◌,
  map, All, Has, if◌then◌else◌, nat_eq, ◌==◌,
}

-- A key with its value, and the revision of the last change of it.
pub record Kv : Type 0 where
  pub key : String
  pub value : String
  pub mod_revision : ℕ

pub data Op : Type 0 where
  op_get op_get_prefix op_delete : String → Op
  op_put : String → String → Op

-- Compare(ModRevision(key), "=", revision)
pub record Compare : Type 0 where
  pub key : String
  pub revision : ℕ

pub record Txn : Type 0 where
  pub cmps : List Compare
  pub then_ops : List Op
  pub else_ops : List Op

pub record TxnResponse : Type 0 where
  pub succeeded : Bool
  pub responses : List (List Kv)

-- A key that is not there has the revision 0.
abbrev pub revision_of : Option (String × ℕ) → ℕ
revision_of none = 0
revision_of (some (value, revision)) = revision

abbrev pub value_of : Option (String × ℕ) → Option String
value_of none = none
value_of (some (value, revision)) = some value

-- What stands under a key after the operations of a transaction.
abbrev pub after : List Op → String → Option String → Option String
after [] k old = old
after (op_put key value ∷ ops) k old = after ops k (if key == k then some value else old)
after (op_delete key ∷ ops) k old = after ops k (if key == k then none else old)
after (_ ∷ ops) k old = after ops k old

abbrev pub is_written : List Op → String → Bool
is_written [] k = false
is_written (op_put key value ∷ ops) k = key == k || is_written ops k
is_written (op_delete key ∷ ops) k = key == k || is_written ops k
is_written (_ ∷ ops) k = is_written ops k

abbrev pub only_gets : List Op → Bool
only_gets [] = true
only_gets (op_get key ∷ ops) = only_gets ops
only_gets (op_get_prefix key ∷ ops) = only_gets ops
only_gets (_ ∷ ops) = false

abbrev pub IsDistinct : List Kv → Type 0
IsDistinct [] = Unit
IsDistinct (kv ∷ l) = All (λ (other : Kv). other.key ≢ kv.key) l × IsDistinct l

-- A server, and the calls that reach it.
pub record Etcd : Type 1 where
  pub Store : Type 0
  pub found : Store → String → Option (String × ℕ)
  -- Get with WithPrefix
  pub range : Store → String → List Kv
  pub commit : Txn → Store → Store × TxnResponse

module _ (e : Etcd) where
  -- Get of one key.
  abbrev pub point : e.Store → String → List Kv
  point s key = elim (e.found s key) [
    | none ↦ []
    | some (value, revision) ↦ record { key = key; value = value; mod_revision = revision } ∷ []
  ]

  abbrev pub holds : e.Store → List Compare → Bool
  holds s [] = true
  holds s (c ∷ cs) = nat_eq (revision_of (e.found s c.key)) c.revision && holds s cs

  abbrev pub chosen : e.Store → Txn → List Op
  chosen s t = if holds s t.cmps then t.then_ops else t.else_ops

  abbrev pub reply : e.Store → Op → List Kv
  reply s (op_get key) = point s key
  reply s (op_get_prefix prefix) = e.range s prefix
  reply s _ = []

  -- What the documentation of etcd says of these calls.
  pub record Documented : Type 0 where
    -- A range has the keys that begin with the prefix, each once.
    pub ranges :
        (s : e.Store) (prefix : String) (kv : Kv)
        → Has kv (e.range s prefix) ↔ (
            ((rest : String) × (kv.key ≡ prefix <> rest))
            × (e.found s kv.key ≡ some (kv.value, kv.mod_revision)))
    pub distinct : (s : e.Store) (prefix : String) → IsDistinct (e.range s prefix)
    -- A transaction runs one list of operations at once, and says which.
    pub decides : (t : Txn) (s : e.Store) → (e.commit t s).1.succeeded ≡ holds s t.cmps
    pub writes :
        (t : Txn) (s : e.Store) (k : String)
        → value_of (e.found (e.commit t s).0 k) ≡ after (chosen s t) k (value_of (e.found s k))
    pub leaves :
        (t : Txn) (s : e.Store) (k : String)
        → is_written (chosen s t) k ≡ false
        → e.found (e.commit t s).0 k ≡ e.found s k
    pub replies :
        (t : Txn) (s : e.Store)
        → only_gets (chosen s t) ≡ true
        → (e.commit t s).1.responses ≡ map (reply s) (chosen s t)
