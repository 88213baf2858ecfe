-- ===== src/Tests/StorageTests.antt =====
-- The theorems about lib/cluster/etcd.go at a server that keeps a log.
use tt.Prelude.{
  List, suc, sym, ◌∙◌, nat_eq, if◌then◌else◌, arith, ℕ, String, ◌≡◌, refl, Bool, true, false,
  Option, none, some, [], ◌∷◌, ◌&&◌, ◌==◌,
}
use tt.Texts.{cut_prefix, trim_slashes, split_slash}
use tt.Storage.{
  CheckFunc, Hashes, SignFunc, fetched, get_config_key, get_config_prefix, get_hashes_key,
  get_hashes_prefix, get_sign_key, get_sign_prefix, get_storage_key, parse_hash_path,
}
use tt.Storage.Etcd.{revision_of, op_put}
use tt.Storage.Publish.{Round, publish_all, collect_all}
use tt.Storage.Signed.{publish_key, sign_ops, key_txn, collect_signed_key}
use tt.Storage.Swap.{IsQuiet}
use tt.Storage.Loop.{SwappedIn}
use tt.Storage.Whole.{publish_all-SwappedIn, publish_all-quiet, publish_all-collect_all}
use tt.Storage.Key.{publish_key-Published, Published}
use tt.Storage.HashMap.{get_hash}
use tt.Storage.Sealed.{publish_key-collect_signed_key}
use tt.Storage.Checked.{Checked, collect_signed_key-Checked}
use tt.Storage.Tarantool.{
  Connector, Operation, get_path, put_path, delete_path, sign_operations, tarantool_publish_key,
}
use tt.Storage.Unnoticed.{meets, Refuses, tarantool_publish_key-unnoticed}
use tt.Storage.Exchange.{
  Attempt, publish_signed, exchange_rounds, exchange_txn, target_of, stale_hashes,
}
use tt.Storage.Published.{ExchangedIn, publish_signed-ExchangedIn}
use tt.Storage.Publish.{stale_kvs}
use tt.Tests.EtcdServer.{
  log_range, apply_op, Log, log_server, log_server-Documented, log_found, apply_ops,
}

abbrev two_parts : Log
two_parts = apply_ops (op_put "/tt/config/a" "x" ∷ op_put "/tt/config/b" "y" ∷ []) []

abbrev quiet_round : Round Log
quiet_round = record { before = λ s. s; get_fails = false; between = λ s. s; commit_fails = false }

-- Another client changes a key that was read.
abbrev busy_round : Round Log
busy_round = record {
  before = λ s. s;
  get_fails = false;
  commit_fails = false;
  between = apply_ops (op_put "/tt/config/a" "z" ∷ []);
}

quiet_round-IsQuiet : IsQuiet log_server quiet_round
quiet_round-IsQuiet = record { get_works = refl; commit_works = refl; untouched = λ s k. refl }

publish_all-quiet_example :
    (publish_all log_server "/tt/" 0 (some "c") (busy_round ∷ quiet_round ∷ []) two_parts).1 ≡ none
publish_all-quiet_example =
    publish_all-quiet log_server log_server-Documented "/tt/" "c" (busy_round ∷ []) [] quiet_round
      two_parts ((refl, refl), tt) quiet_round-IsQuiet

publish_all-SwappedIn_example :
    (◌≡◌ {A = ℕ} 0 0)
    × ((text : String) × (◌≡◌ {A = Option String} (some "c") (some text))
        × SwappedIn log_server
            (get_config_prefix "/tt/")
            (get_config_key "/tt/" "all")
            text
            (busy_round ∷ quiet_round ∷ [])
            two_parts
            (publish_all log_server "/tt/" 0
              (some "c")
              (busy_round ∷ quiet_round ∷ [])
              two_parts).0)
publish_all-SwappedIn_example =
    publish_all-SwappedIn log_server log_server-Documented "/tt/" 0 (some "c")
      (busy_round ∷ quiet_round ∷ []) two_parts
      (publish_all-quiet log_server log_server-Documented "/tt/" "c" (busy_round ∷ []) []
        quiet_round two_parts ((refl, refl), tt) quiet_round-IsQuiet)

publish_all-collect_all_example :
    ((publish_all log_server "/tt/" 0 (some "c") (quiet_round ∷ []) two_parts).1 ≡ none)
    × ((n : ℕ) × (collect_all log_server false "/tt/"
            (publish_all log_server "/tt/" 0 (some "c") (quiet_round ∷ []) two_parts).0
          ≡ fetched
              (record { source = get_config_key "/tt/" "all"; value = "c"; revision = n } ∷ [])))
publish_all-collect_all_example =
    publish_all-collect_all log_server log_server-Documented "/tt/" "c" quiet_round [] two_parts
      (quiet_round-IsQuiet, tt)

publish_key-Published_example :
    Published log_server
      (get_config_prefix "/tt/")
      "a"
      7
      "c"
      two_parts
      (publish_key log_server none false "/tt/" "a" 7 (some "c") two_parts)
unfolding sign_ops
publish_key-Published_example =
    publish_key-Published log_server log_server-Documented "/tt/" "a" 7 "c" two_parts none [] refl

abbrev sign_once : SignFunc
sign_once text = some (("sha256", "hash of it") ∷ [], "signature")

check_hash : Option String → String → Bool
check_hash none sig = false
check_hash (some hash) sig = hash == "hash of it" && sig == "signature"

abbrev check_once : CheckFunc
check_once text hashes sig = check_hash (get_hash "sha256" hashes) sig

check_once-accepts :
    (h : Hashes)
    → ((name : String) → get_hash name h ≡ get_hash name (("sha256", "hash of it") ∷ []))
    → check_once "c" h "signature" ≡ true
unfolding check_hash get_hash
check_once-accepts h same = rw (same "sha256") refl

publish_key-collect_signed_key_example :
    collect_signed_key log_server check_once false "/tt/" "a"
      (publish_key log_server (some sign_once) false "/tt/" "a" 0 (some "c") []).0
    ≡ fetched (record { source = get_config_key "/tt/" "a"; value = "c"; revision = 0 } ∷ [])
unfolding publish_key sign_ops key_txn split_slash log_found
publish_key-collect_signed_key_example =
    publish_key-collect_signed_key log_server log_server-Documented "/tt/" "a" 0 "c" [] sign_once
      check_once "sha256" "hash of it" [] "signature" refl (refl, (tt, tt)) (λ name h. refl)
      check_once-accepts refl

collect_signed_key-Checked_example :
    Checked log_server "/tt/" "a" check_once
      (publish_key log_server (some sign_once) false "/tt/" "a" 0 (some "c") []).0
      (record { source = get_config_key "/tt/" "a"; value = "c"; revision = 0 } ∷ [])
unfolding publish_key sign_ops key_txn split_slash log_found
collect_signed_key-Checked_example =
    collect_signed_key-Checked log_server log_server-Documented "/tt/" "a" check_once
      (publish_key log_server (some sign_once) false "/tt/" "a" 0 (some "c") []).0
      (record { source = get_config_key "/tt/" "a"; value = "c"; revision = 0 } ∷ [])
      (publish_key-collect_signed_key log_server log_server-Documented "/tt/" "a" 0 "c" [] sign_once
        check_once "sha256" "hash of it" [] "signature" refl (refl, (tt, tt)) (λ name h. refl)
        check_once-accepts refl)

-- A storage of Tarantool whose keys stand in a function.
abbrev Paths : Type 0
Paths = String → Option (String × ℕ)

abbrev apply_operation : Operation → Paths → Paths
apply_operation (get_path path) s = s
apply_operation (delete_path path) s = λ k. elim (cut_prefix path k) [ none ↦ s k | some _ ↦ none ]
apply_operation (put_path path value) s =
    λ k. if path == k then some (value, suc (revision_of (s path))) else s k

abbrev apply_operations : List Operation → Paths → Paths
apply_operations [] s = s
apply_operations (op ∷ ops) s = apply_operations ops (apply_operation op s)

abbrev is_met : Paths → List (ℕ × String) → Bool
is_met s [] = true
is_met s ((revision, path) ∷ predicates) =
    nat_eq (revision_of (s path)) revision && is_met s predicates

abbrev storage : Connector
storage = record {
  Store = Paths;
  Raw = Unit;
  found = λ s k. s k;
  call_get = λ path s. none;
  call_txn = λ r s. (
    (if is_met s r.predicates then apply_operations r.on_success s else s),
    some ((tt ∷ []) ∷ []),
  );
  decode_get = λ raw. none;
  decode_txn = λ raw. none;
}

is_met-meets :
    (s : Paths) (predicates : List (ℕ × String)) → meets storage s predicates ≡ is_met s predicates
is_met-meets s [] = refl
is_met-meets s ((revision, path) ∷ predicates) = rw (is_met-meets s predicates) refl

storage-Refuses : Refuses storage
storage-Refuses = record {
  keeps = λ r s k h. rw (sym (is_met-meets s r.predicates) ∙ h) refl;
  replies = λ r s h. ((tt ∷ []) ∷ [], refl);
}

abbrev one_path : Paths
one_path k = if k == "/tt/config/a" then some ("x", 3) else none

tarantool_publish_key-unnoticed_example :
    ((tarantool_publish_key storage none "/tt/" "a" 2 (some "c") one_path).1 ≡ none)
    × ((k : String)
        → storage.found (tarantool_publish_key storage none "/tt/" "a" 2 (some "c") one_path).0 k
          ≡ storage.found one_path k)
unfolding sign_operations get_config_key get_config_prefix trim_slashes
tarantool_publish_key-unnoticed_example =
    tarantool_publish_key-unnoticed storage storage-Refuses none "/tt/" "a" 2 (some "c") one_path []
      refl (λ h. omega (arith, h)) (λ h. omega (arith, h))

abbrev busy : Attempt Log
busy = record { between = apply_ops (op_put "/tt/config/a" "z" ∷ []); fails = false }

abbrev quiet : Attempt Log
quiet = record { between = λ s. s; fails = false }

publish_signed-ExchangedIn_example :
    (◌≡◌ {A = ℕ} 0 0)
    × ((text : String) × ((hashes : Hashes) × ((sig : String) × ((◌≡◌ {A = Option String}
                (some "c")
                (some text))
              × ((sign_once text ≡ some (hashes, sig))
                  × ((start : Log) × ((k : String)
                        → log_server.found start k ≡ log_server.found two_parts k)
                      × ExchangedIn log_server "/tt/"
                          (target_of "/tt/" text hashes sig)
                          (busy ∷ quiet ∷ [])
                          two_parts
                          start
                          (publish_signed log_server sign_once false "/tt/" 0
                            (some "c")
                            (busy ∷ quiet ∷ [])
                            two_parts).0))))))
unfolding publish_signed exchange_rounds exchange_txn target_of stale_hashes stale_kvs log_found
    log_range apply_ops apply_op cut_prefix get_config_prefix get_config_key get_hashes_prefix
    get_hashes_key get_sign_prefix get_sign_key trim_slashes
publish_signed-ExchangedIn_example =
    publish_signed-ExchangedIn log_server log_server-Documented sign_once false "/tt/" 0 (some "c")
      (busy ∷ quiet ∷ []) two_parts refl

-- The keys of a storage.
parse_hash_path_test : parse_hash_path "/tt/hashes/sha256/all" "/tt//" ≡ some ("sha256", "all")
unfolding parse_hash_path split_slash cut_prefix get_hashes_prefix trim_slashes
parse_hash_path_test = refl

get_storage_key_test : get_storage_key "/tt" "/other/config/all" ≡ none
unfolding get_storage_key cut_prefix get_config_prefix trim_slashes
get_storage_key_test = refl
