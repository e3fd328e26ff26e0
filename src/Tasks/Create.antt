-- ===== src/Tasks/Create.antt =====
-- The idempotent create of the resource routes: mm_gateway/server/routes/_resources.py and the body of
-- `create_resource` (_audio_resources.py; the music, image and video routes have the same steps).
-- The generation service and what it changes (`W`) are parameters. One create runs under its scope's
-- lock, so it is one step here. The rendering of responses is left out; `owner` is the id of the key.
pub mod Replay
use mm_gateway.Prelude.{
  ℕ, String, ◌≡◌, Bool, true, false, Option, none, some, ◌==◌, string_eq, option_eq, if◌then◌else◌,
}
use mm_gateway.Config.{KeyConfig}
use mm_gateway.Registry.{Registry}
use mm_gateway.Registry.Access.{authorize_task_access}
use mm_gateway.Tasks.Store
use mm_gateway.Tasks.Store.{
  TaskRecord, TaskStore, Scope, get_by_idempotency, guard_lock, truthy_text,
}

-- What a service returns for an accepted task.
pub record Accepted (J : Type 0) : Type 0 where
  pub provider : String
  pub task_id : String
  pub model : String
  pub routing : Option J

pub data Outcome (E J : Type 0) : Type 0 where
  accepted : Accepted J → Outcome E J
  failed : E → Outcome E J

pub data Reply (E J : Type 0) : Type 0 where
  created : TaskRecord J → Reply E J
  replayed : TaskRecord J → J → Reply E J
  conflict : Reply E J
  forbidden : Reply E J
  -- RuntimeError: a record that matches has no stored response
  unanswerable : Reply E J
  service_error : E → Reply E J

pub record CreateRequest (J : Type 0) : Type 0 where
  pub owner : String
  pub modality : String
  pub requested_model : Option String
  pub metadata : J
  pub idempotency_key : Option String
  pub fingerprint : String

-- f"{prefix}_{uuid4().hex}" and time.time(), which the caller draws
pub record Fresh : Type 0 where
  pub task_id : String
  pub now : ℕ

pub data Found (J : Type 0) : Type 0 where
  nothing : Found J
  record_found : TaskRecord J → Found J
  mismatch : Found J

module _ {J : Type 0} where
  unfoldable pub find_idempotent_record : CreateRequest J → TaskStore J → Found J
  find_idempotent_record q s = elim q.idempotency_key [
    | none ↦ nothing
    | some k ↦ elim (get_by_idempotency (q.owner, q.modality, k) s) [
      | none ↦ nothing
      | some r ↦ if r.request_fingerprint == some q.fingerprint then record_found r else mismatch
    ]
  ]

  unfoldable pub new_record : CreateRequest J → Fresh → Accepted J → String → TaskRecord J
  new_record q fresh a model = record {
    task_id = fresh.task_id;
    provider = a.provider;
    model = model;
    owner_key_id = q.owner;
    modality = q.modality;
    provider_task_id = some a.task_id;
    created_at = fresh.now;
    metadata = q.metadata;
    idempotency_key = q.idempotency_key;
    request_fingerprint = elim (truthy_text q.idempotency_key) [
      | none ↦ none
      | some k ↦ some q.fingerprint
    ];
    create_response = none;
    routing = a.routing;
  }

  unfoldable pub remember_create_response : TaskRecord J → J → TaskRecord J
  remember_create_response r resource = record r { create_response = some resource }

  unfoldable pub replay_resource : {E : Type 0} → TaskRecord J → Reply E J
  replay_resource r = elim r.create_response [
    | none ↦ unanswerable
    | some resource ↦ replayed r resource
  ]

-- `served` is served_model, and `respond` the translation of a new record to its public resource.
module _ {W E J : Type 0} (service : CreateRequest J → W → W × Outcome E J)
    (served : Option String → Accepted J → String) (respond : Accepted J → TaskRecord J → J) where
  unfoldable pub store_new :
      CreateRequest J → Fresh → TaskStore J → W × Outcome E J → TaskStore J × W × Reply E J
  store_new q fresh s (w, failed e) = (s, w, service_error e)
  store_new q fresh s (w, accepted a) =
      let r = new_record q fresh a (served q.requested_model a) in
      let r' = remember_create_response r (respond a r) in (Store.put r' s, w, created r')

  unfoldable pub create_resource :
      {R : Type 0}
      → Registry R
      → KeyConfig
      → CreateRequest J
      → Fresh
      → TaskStore J
      → W
      → TaskStore J × W × Reply E J
  unfolding store_new authorize_task_access
  create_resource registry key q fresh s w =
      let (s', lock) = guard_lock q.owner q.modality q.idempotency_key s in
      elim (find_idempotent_record q s') [
        | record_found r ↦
            (s', w, if authorize_task_access registry key r then replay_resource r else forbidden)
        | mismatch ↦ (s', w, conflict)
        | nothing ↦ store_new q fresh s' (service q w)
      ]
