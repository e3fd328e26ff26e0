-- ===== src/Tasks/Store.antt =====
-- mm_gateway/tasks/store.py: the task records and their index by idempotency key. Each method holds the
-- store's lock, so it is one step. `J` is the JSON that the store keeps and never reads.
pub mod Index
use mm_gateway.Prelude.{
  ℕ, ◌+◌, String, ◌≡◌, Bool, true, false, ◌&&◌, Option, none, some, List, [], ◌∷◌, ◌==◌, string_eq,
  triple_eq, keep, if◌then◌else◌,
}
use mm_gateway.Prelude.Dict
use mm_gateway.Prelude.Dict.{Dict, values}

-- (owner key id, modality, idempotency key)
abbrev pub Scope : Type 0
Scope = String × String × String

-- `if text:` is false for a missing and for an empty text.
abbrev pub truthy_text : Option String → Option String
truthy_text none = none
truthy_text (some s) = if s == "" then none else some s

module _ (J : Type 0) where
  pub record TaskRecord : Type 0 where
    pub task_id : String
    pub provider : String
    pub model : String
    pub owner_key_id : String
    pub modality : String
    pub provider_task_id : Option String
    pub created_at : ℕ
    pub metadata : J
    pub idempotency_key : Option String
    pub request_fingerprint : Option String
    pub create_response : Option J
    pub routing : Option J

  pub record TaskStore : Type 0 where
    pub records : Dict String TaskRecord
    pub idempotency : Dict Scope String
    -- the lock of each scope, by its identity
    pub locks : Dict Scope ℕ
    pub next_lock : ℕ

module _ {J : Type 0} where
  abbrev pub empty_store : TaskStore J
  empty_store = record { records = []; idempotency = []; locks = []; next_lock = 0 }

  -- The scope that a record claims, if it has an idempotency key.
  abbrev pub scope_of : TaskRecord J → Option Scope
  scope_of r = elim (truthy_text r.idempotency_key) [
    | none ↦ none
    | some k ↦ some (r.owner_key_id, r.modality, k)
  ]

  unfoldable pub put : TaskRecord J → TaskStore J → TaskStore J
  put r s = record s {
    records = Dict.put r.task_id r s.records;
    idempotency = Dict.put_if (scope_of r) r.task_id s.idempotency;
  }

  unfoldable pub get : String → TaskStore J → Option (TaskRecord J)
  get task_id s = Dict.get task_id s.records

  -- `list`
  unfoldable pub list_owned : String → String → TaskStore J → List (TaskRecord J)
  list_owned owner modality s =
      keep (λ r. r.owner_key_id == owner && r.modality == modality) (values s.records)

  unfoldable pub list_all : TaskStore J → List (TaskRecord J)
  list_all s = values s.records

  unfoldable pub get_by_idempotency : Scope → TaskStore J → Option (TaskRecord J)
  get_by_idempotency scope s = elim (truthy_text (Dict.get scope s.idempotency)) [
    | none ↦ none
    | some task_id ↦ Dict.get task_id s.records
  ]

  -- Entering `idempotency_guard`: the scope's lock, made if there is none.
  unfoldable pub guard_lock : String → String → Option String → TaskStore J → TaskStore J × Option ℕ
  guard_lock owner modality none s = (s, none)
  guard_lock owner modality (some k) s = elim (Dict.get (owner, modality, k) s.locks) [
    | some lock ↦ (s, some lock)
    | none ↦ (
      record s {
        locks = Dict.put (owner, modality, k) s.next_lock s.locks;
        next_lock = s.next_lock + 1;
      },
      some s.next_lock,
    )
  ]

  unfoldable pub delete : String → TaskStore J → TaskStore J
  delete task_id s = elim (Dict.get task_id s.records) [
    | none ↦ record s { records = Dict.remove task_id s.records }
    | some r ↦ record s {
      records = Dict.remove task_id s.records;
      idempotency = Dict.discard (scope_of r) s.idempotency;
      locks = Dict.discard (scope_of r) s.locks;
    }
  ]
