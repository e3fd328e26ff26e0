-- ===== src/Tasks/Create/Replay.antt =====
-- A create that is repeated with its idempotency key reaches no provider a second time.
use mm_gateway.Prelude.{
  ℕ, String, ◌≡◌, ◌≢◌, refl, ◌∙◌, Option, some, arith, ◌==◌, string_eq, option_eq, triple_eq,
  ==_refl, eq_iff, option_beq_iff, Option-cases, inl, inr, if◌then◌else◌,
}
use mm_gateway.Prelude.Dict
use mm_gateway.Prelude.Dict.{get-put}
use mm_gateway.Config.{KeyConfig}
use mm_gateway.Registry.{Registry}
use mm_gateway.Registry.Access.{authorize_task_access}
use mm_gateway.Tasks.Store
use mm_gateway.Tasks.Store.{TaskRecord, TaskStore, Scope, get_by_idempotency, guard_lock, scope_of}
use mm_gateway.Tasks.Store.Index.{get_by_idempotency-put}
use mm_gateway.Tasks.Create.{
  Accepted, Outcome, accepted, failed, created, replayed, conflict, forbidden, Reply, CreateRequest,
  Fresh, Found, nothing, record_found, mismatch, find_idempotent_record, new_record,
  remember_create_response, replay_resource, store_new, create_resource,
}

guard_lock-has :
    {J : Type 0} (owner modality k : String) (s : TaskStore J)
    → (lock : ℕ) × (Dict.get (owner, modality, k) (guard_lock owner modality (some k) s).0.locks
        ≡ some lock)
unfolding guard_lock
guard_lock-has owner modality k s = elim (Option-cases (Dict.get (owner, modality, k) s.locks)) [
  | inl new ↦ (
    s.next_lock,
    ground (
      arith,
      ==_refl {A = Scope} (owner, modality, k),
      get-put {K = Scope} (owner, modality, k) (owner, modality, k) s.next_lock s.locks,
    ),
  )
  | inr (lock, old) ↦ (lock, ground arith)
]

guard_lock_same :
    {J : Type 0} (owner modality k : String) (s : TaskStore J) {lock : ℕ}
    → Dict.get (owner, modality, k) s.locks ≡ some lock
    → (guard_lock owner modality (some k) s).0 ≡ s
unfolding guard_lock
guard_lock_same owner modality k s has = rw (has, guard_lock) refl

module _ {W E J : Type 0} (service : CreateRequest J → W → W × Outcome E J)
    (served : Option String → Accepted J → String) (respond : Accepted J → TaskRecord J → J)
    {R : Type 0} (registry : Registry R) (key : KeyConfig) where
  abbrev stored : CreateRequest J → Fresh → Accepted J → TaskRecord J
  stored q fresh a =
      let r = new_record q fresh a (served q.requested_model a) in
      remember_create_response r (respond a r)

  store_new_inv :
      (q : CreateRequest J) (fresh : Fresh) (s s' : TaskStore J) (w' : W) (r : TaskRecord J)
      (o : W × Outcome E J)
      → store_new service served respond q fresh s o ≡ (s', w', created r)
      → (a : Accepted J) × (r ≡ stored q fresh a) × (s' ≡ Store.put r s)
  unfolding store_new
  store_new_inv q fresh s s' w' r (w, failed e) h = absurd (ground arith)
  store_new_inv q fresh s s' w' r (w, accepted a) h = (a, ground arith, ground arith)

  -- What a create that answers with a new task has done.
  created_inv :
      (q : CreateRequest J) (fresh : Fresh) (s s' : TaskStore J) (w w' : W) (r : TaskRecord J)
      → create_resource service served respond registry key q fresh s w ≡ (s', w', created r)
      → (a : Accepted J) × (r ≡ stored q fresh a)
        × (s' ≡ Store.put r (guard_lock q.owner q.modality q.idempotency_key s).0)
  unfolding create_resource replay_resource
  created_inv q fresh s s' w w' r h =
      inv (find_idempotent_record q (guard_lock q.owner q.modality q.idempotency_key s).0) refl h
    where
      inv :
          (f : Found J)
          → find_idempotent_record q (guard_lock q.owner q.modality q.idempotency_key s).0 ≡ f
          → create_resource service served respond registry key q fresh s w ≡ (s', w', created r)
          → (a : Accepted J) × (r ≡ stored q fresh a)
            × (s' ≡ Store.put r (guard_lock q.owner q.modality q.idempotency_key s).0)
      inv nothing e k =
          store_new_inv q fresh (guard_lock q.owner q.modality q.idempotency_key s).0 s' w' r
            (service q w) (ground arith)
      inv (record_found x) e k = absurd (ground arith)
      inv mismatch e k = absurd (ground arith)

  -- The state after the first create, as a repetition meets it: the scope has its lock, and its record.
  second_guard :
      (q : CreateRequest J) (fresh : Fresh) (a : Accepted J) (k : String) (s : TaskStore J)
      → q.idempotency_key ≡ some k
      → let s' =
          Store.put (stored q fresh a) (guard_lock q.owner q.modality q.idempotency_key s).0 in
        (guard_lock q.owner q.modality (some k) s').0 ≡ s'
  unfolding Store.put
  second_guard q fresh a k s keyed =
      let s' = Store.put (stored q fresh a) (guard_lock q.owner q.modality q.idempotency_key s).0 in
      let (lock, has) = guard_lock-has q.owner q.modality k s in
      guard_lock_same q.owner q.modality k s' {lock = lock} (rw keyed has)

  second_lookup :
      (q : CreateRequest J) (fresh : Fresh) (a : Accepted J) (k : String) (s : TaskStore J)
      → q.idempotency_key ≡ some k
      → k ≢ ""
      → fresh.task_id ≢ ""
      → get_by_idempotency (q.owner, q.modality, k) (Store.put (stored q fresh a) s)
        ≡ some (stored q fresh a)
  unfolding new_record remember_create_response
  second_lookup q fresh a k s keyed real named =
      (get_by_idempotency-put (stored q fresh a) s (q.owner, q.modality, k) named
        (ground (arith, eq_iff k ""))).1

  -- The repeated request: of the same key of the same owner, for the same modality.
  abbrev pub Repeats : CreateRequest J → CreateRequest J → Type 0
  Repeats q again =
      (again.owner ≡ q.owner)
      × (again.modality ≡ q.modality)
      × (again.idempotency_key ≡ q.idempotency_key)

  -- The answer to a repetition: the stored response, to a caller who still has access to the task.
  abbrev pub replayed_or_forbidden : TaskRecord J → J → Reply E J
  replayed_or_forbidden r resource =
      if authorize_task_access registry key r then replayed r resource else forbidden

  conflict_step :
      (q : CreateRequest J) (fresh : Fresh) (s : TaskStore J) (v : W)
      → (guard_lock q.owner q.modality q.idempotency_key s).0 ≡ s
      → find_idempotent_record q s ≡ mismatch
      → create_resource service served respond registry key q fresh s v ≡ (s, v, conflict)
  unfolding create_resource
  conflict_step q fresh s v same found = ground arith

  find_step :
      (q : CreateRequest J) (k : String) (s : TaskStore J) (r : TaskRecord J)
      → q.idempotency_key ≡ some k
      → get_by_idempotency (q.owner, q.modality, k) s ≡ some r
      → find_idempotent_record q s
        ≡ (if r.request_fingerprint == some q.fingerprint then record_found r else mismatch)
  unfolding find_idempotent_record
  find_step q k s r keyed found = ground arith

  -- What the repetition finds after the first create.
  after_create :
      (q again : CreateRequest J) (fresh : Fresh) (k : String) (s s' : TaskStore J) (w w' : W)
      (r : TaskRecord J)
      → q.idempotency_key ≡ some k
      → k ≢ ""
      → fresh.task_id ≢ ""
      → create_resource service served respond registry key q fresh s w ≡ (s', w', created r)
      → Repeats q again
      → (resource : J) × (r.create_response ≡ some resource)
        × (r.request_fingerprint ≡ some q.fingerprint)
        × ((guard_lock again.owner again.modality again.idempotency_key s').0 ≡ s')
        × (get_by_idempotency (again.owner, again.modality, k) s' ≡ some r)
  unfolding new_record remember_create_response
  after_create q again fresh k s s' w w' r keyed real named done same =
      let (a, is_r, is_s') = created_inv q fresh s s' w w' r done in
      let lookup =
        second_lookup q fresh a k (guard_lock q.owner q.modality q.idempotency_key s).0 keyed real
          named in
      (
        respond a (new_record q fresh a (served q.requested_model a)),
        ground arith,
        ground (arith, eq_iff k ""),
        cc (second_guard q fresh a k s keyed),
        ground (arith, lookup),
      )

module _ {W E J : Type 0} (service : CreateRequest J → W → W × Outcome E J)
    (served : Option String → Accepted J → String) (respond : Accepted J → TaskRecord J → J)
    {R R' : Type 0} (registry : Registry R) (key : KeyConfig) (registry' : Registry R')
    (key' : KeyConfig) where
  -- After a create that was accepted under an idempotency key, a request of another fingerprint
  -- with the same key is a conflict: the store does not change and the service is not called. The
  -- key and the new task's id are not empty.
  pub create_conflicts :
      (q again : CreateRequest J) (fresh later : Fresh) (k : String) (s s' : TaskStore J)
      (w w' v : W) (r : TaskRecord J)
      → q.idempotency_key ≡ some k
      → k ≢ ""
      → fresh.task_id ≢ ""
      → create_resource service served respond registry key q fresh s w ≡ (s', w', created r)
      → Repeats service served respond registry key q again
      → again.fingerprint ≢ q.fingerprint
      → create_resource service served respond registry' key' again later s' v ≡ (s', v, conflict)
  create_conflicts q again fresh later k s s' w w' v r keyed real named done same print =
      let (resource, remembered, marked, lock, found) =
        after_create service served respond registry key q again fresh k s s' w w' r keyed real
          named done same in
      let ours : again.idempotency_key ≡ some k = same.2 ∙ keyed in
      let found' : find_idempotent_record again s' ≡ mismatch =
        find_step service served respond registry' key' again k s' r ours found
        ∙ ground (arith, option_beq_iff r.request_fingerprint (some again.fingerprint)) in
      conflict_step service served respond registry' key' again later s' v lock found'
