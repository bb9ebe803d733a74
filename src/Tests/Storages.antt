-- ===== src/Tests/Storages.antt =====
-- Storages of two users, the pages of a queue and the buffer of its head.
use actor_runtime.Base.{
  find_first, ◌===◌, ℕ, String, ◌≡◌, ◌≢◌, refl, Bool, true, false, Option, none, some, List, [],
  ◌∷◌, ◌===◌, eq_iff, sym, ◌∙◌, if◌then◌else◌,
}
use actor_runtime.Base.Dict.{lookup}
use actor_runtime.Jobs.Registry
use actor_runtime.Jobs.Registry.{Registry}
use actor_runtime.Entities.Storage.{StorageRecord, UserRecord, dataset}
use actor_runtime.ResourceReference.{named, self, is_caller_owner}
use actor_runtime.Storages.{
  Storages, resolve_owned_storage, create_storage, same_type, find_owned_storage_by_name,
  list_owned_storages,
}
use actor_runtime.Storages.Ownership.{resolve_owned_storage_owned, create_storage_idempotent}
use actor_runtime.RequestQueue.Frontend.{Request, Frontend}
use actor_runtime.RequestQueue.Buffer.{empty_buffer}
use actor_runtime.RequestQueue.Service.{Store}

abbrev alice : UserRecord
alice = record {
  id = "user1";
  username = "alice";
  token = "t";
  tokens = none;
  created_at = 0;
  proxy_password = none;
}

abbrev results : StorageRecord ℕ
results = record {
  id = "s1";
  kind = dataset;
  user_id = "user1";
  name = some "results";
  created_at = 0;
  modified_at = 0;
  accessed_at = 0;
  schema = none;
  act_id = none;
  act_run_id = none;
}

abbrev storages : Storages ℕ
storages = record {
  registry = record {
    store = ("s0", record results { id = "s0"; user_id = "user2" }) ∷ ("s1", results) ∷ [];
    listening = false;
    notices = [];
  };
  backend = [];
}

-- Lower case, on the names of these tests.
abbrev lower : String → String
lower s = if s === "Items" then "items" else s

-- Texts that the test tells apart differ.
differ : (a b : String) → (a === b) ≡ false → a ≢ b
differ a b h e = clash (sym ((eq_iff a b).1 e) ∙ h)
  where
    clash : ◌≡◌ {A = Bool} true false → ⊥
    clash k = cc

resolve_owned_storage_owned_example :
    (results.user_id ≡ alice.id) × (same_type results.kind dataset ≡ true)
unfolding resolve_owned_storage find_owned_storage_by_name list_owned_storages is_caller_owner
    Registry.list same_type
resolve_owned_storage_owned_example =
    resolve_owned_storage_owned lower storages alice (named self "results") dataset results refl

create_storage_idempotent_example :
    create_storage lower 8 "s3" "user1" dataset
      (some "items")
      none
      none
      (create_storage lower 7 "s2" "user1" dataset (some "Items") none none storages).0
    ≡ create_storage lower 7 "s2" "user1" dataset (some "Items") none none storages
unfolding Registry.get lookup
create_storage_idempotent_example =
    create_storage_idempotent lower 7 8 "s2" "s3" "user1" dataset "Items" "items" none none none
      none storages (differ "Items" "" refl) (differ "items" "" refl) refl refl

-- A queue that is the list of its requests.
abbrev request : String → Request ℕ
request key = record {
  unique_key = key;
  url = key;
  method = "GET";
  payload = none;
  retry_count = 0;
  error_messages = [];
  user_data = 0;
  headers = 0;
  handled_at = none;
  no_retry = false;
  loaded_url = none;
}

abbrev fetch : List (Request ℕ) → List (Request ℕ) × Option (Request ℕ)
fetch [] = ([], none)
fetch (r ∷ rs) = (rs, some r)

abbrev list_frontend : Frontend ℕ
list_frontend = record {
  Queue = List (Request ℕ);
  get_request_id = λ key. key;
  fetch_next_request = fetch;
  get_request = λ q key. find_first (λ r. r.unique_key === key) q;
  add_request = λ q r forefront. (
    r ∷ q,
    record { request_id = r.unique_key; was_already_present = false; was_already_handled = false },
  );
  mark_request_as_handled = λ q r. (q, none);
  reclaim_request = λ q r forefront. (r ∷ q, none);
}

abbrev ids : List String
ids = "a" ∷ "b" ∷ "c" ∷ []

-- Three requests were seen, of which one has gone since.
abbrev seen : Store list_frontend
seen = record {
  buffer = record empty_buffer {
    unique_key_index = ("a", "a") ∷ ("b", "b") ∷ ("c", "c") ∷ [];
    insertion_order = ids;
  };
  queue = request "a" ∷ request "c" ∷ [];
}
