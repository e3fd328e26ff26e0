-- ===== src/Tests/Create.antt =====
-- A create that is repeated with its idempotency key.
use mm_gateway.Prelude.{
  ℕ, ◌+◌, String, ◌≡◌, refl, Option, none, some, nat_eq, string_eq, triple_eq, pair_eq, option_eq,
}
use mm_gateway.Prelude.Dict
use mm_gateway.Tasks.Store
use mm_gateway.Tasks.Store.{TaskRecord, TaskStore, empty_store, get_by_idempotency, guard_lock}
use mm_gateway.Tasks.Create.{
  Accepted, Outcome, accepted, created, conflict, CreateRequest, Fresh, create_resource,
  find_idempotent_record, new_record, remember_create_response, store_new,
}
use mm_gateway.Tasks.Create.Replay.{create_conflicts}
use mm_gateway.Tests.Tasks.{stored_record, text_differs}
use mm_gateway.Tests.Registry.{registry, key}

abbrev count : CreateRequest String → ℕ → ℕ × Outcome String String
count q calls =
    (calls + 1, accepted (record { provider = "b"; task_id = "p1"; model = "m"; routing = none }))

abbrev model_of : Option String → Accepted String → String
model_of none a = a.model
model_of (some m) a = m

abbrev body : Accepted String → TaskRecord String → String
body a r = r.task_id

abbrev first_request : CreateRequest String
first_request = record {
  owner = "team";
  modality = "video";
  requested_model = none;
  metadata = "";
  idempotency_key = some "k";
  fingerprint = "f";
}

abbrev draw : Fresh
draw = record { task_id = "video_1"; now = 5 }

abbrev draw_again : Fresh
draw_again = record { task_id = "video_2"; now = 6 }

abbrev locked : TaskStore String
locked = (guard_lock "team" "video" (some "k") empty_store).0

first_create :
    create_resource count model_of body registry key first_request draw empty_store 0
    ≡ (Store.put stored_record locked, 1, created stored_record)
unfolding create_resource store_new find_idempotent_record new_record remember_create_response
    guard_lock Store.put get_by_idempotency Dict.get Dict.put
first_create = refl

create_conflicts_example :
    create_resource count model_of body registry key
      (record first_request { fingerprint = "g" })
      draw_again
      (Store.put stored_record locked)
      1
    ≡ (Store.put stored_record locked, 1, conflict)
create_conflicts_example =
    create_conflicts count model_of body registry key registry key first_request
      (record first_request { fingerprint = "g" }) draw draw_again "k" empty_store
      (Store.put stored_record locked) 0 1 1 stored_record refl (text_differs "k" "" refl)
      (text_differs "video_1" "" refl) first_create (refl, refl, refl) (text_differs "g" "f" refl)
