-- ===== src/Tasks/Store/Index.antt =====
-- The index by idempotency key leads to the record that claims the key.
use mathlib.Core.List.{Mem}
use mm_gateway.Prelude.{
  String, ◌≡◌, ◌≢◌, ◌↔◌, inl, inr, sym, subst, none, some, arith, ◌==◌, ==_refl, ◌&&◌, eq_iff,
  string_eq, triple_eq, Option-cases, mem-keep,
}
use mm_gateway.Prelude.Dict.{Dict, values, get-put, get-remove, get-put_if, get-discard-some}
use mm_gateway.Prelude.Dict.Distinct.{remove_absent}
use mm_gateway.Prelude.Dict
use mm_gateway.Tasks.Store.{
  TaskRecord, TaskStore, Scope, scope_of, put, get, delete, list_owned, list_all,
  get_by_idempotency, empty_store,
}

module _ {J : Type 0} where
  -- Records stand under their own ids, which are not empty, and an entry of the index leads to a record
  -- that claims the entry's scope.
  pub record IsIndexed (s : TaskStore J) : Type 0 where
    pub named : (id : String) (r : TaskRecord J) → get id s ≡ some r → (r.task_id ≡ id) × (id ≢ "")
    pub leads :
        (scope : Scope) (id : String)
        → Dict.get scope s.idempotency ≡ some id
        → (r : TaskRecord J) × (get id s ≡ some r) × (scope_of r ≡ some scope)

  pub empty_store-IsIndexed : IsIndexed empty_store
  unfolding Dict.get get
  empty_store-IsIndexed = record { named = λ id r h. cc; leads = λ scope id h. cc }

  -- Storing a record under a new id.
  pub put-IsIndexed :
      (r : TaskRecord J) {s : TaskStore J}
      → r.task_id ≢ ""
      → get r.task_id s ≡ none
      → IsIndexed s
      → IsIndexed (put r s)
  unfolding put get
  put-IsIndexed r {s} real fresh w = record {
    named = λ id q h.
        ground (arith, w.named id q, get-put r.task_id id r s.records, eq_iff r.task_id id);
    leads = λ scope id h. elim (get-put_if (scope_of r) scope r.task_id id s.idempotency h) [
      | inl (own, named) ↦
          (r, ground (arith, get-put r.task_id id r s.records, eq_iff r.task_id id), own)
      | inr before ↦
          let (q, found, claims) = w.leads scope id before in
          (q, ground (arith, get-put r.task_id id r s.records, eq_iff r.task_id id), claims)
    ];
  }

  -- Deleting a task takes its entry of the index with it: the index stays right.
  pub delete-IsIndexed :
      (task_id : String) {s : TaskStore J} → IsIndexed s → IsIndexed (delete task_id s)
  unfolding delete get
  delete-IsIndexed task_id {s} w = elim (Option-cases (get task_id s)) [
    | inl gone ↦
        rw (gone, delete)
          (subst IsIndexed
            (λ i. record s { records = sym (remove_absent task_id s.records gone) i }) w)
    | inr (r, found) ↦
        rw (found, delete)
          (record {
            named = λ id q h. ground (arith, w.named id q, get-remove task_id id s.records);
            leads = λ scope id h.
                let (before, other) = get-discard-some (scope_of r) scope s.idempotency h in
                let (q, at_id, claims) = w.leads scope id before in
                (q, ground (arith, get-remove task_id id s.records, eq_iff task_id id), claims);
          })
  ]

  -- In an indexed store, reading by an idempotency key finds only a record of that owner, modality
  -- and key.
  pub get_by_idempotency_sound :
      (scope : Scope) (s : TaskStore J) (r : TaskRecord J)
      → IsIndexed s
      → get_by_idempotency scope s ≡ some r
      → scope_of r ≡ some scope
  unfolding get_by_idempotency get
  get_by_idempotency_sound scope s r w h = elim (Option-cases (Dict.get scope s.idempotency)) [
    | inl gone ↦ absurd (ground arith)
    | inr (id, entry) ↦
        let (q, found, claims) = w.leads scope id entry in
        let same : q ≡ r = ground arith in subst (λ x. scope_of x ≡ some scope) same claims
  ]

  -- A stored record whose id is not empty is found by the key it claims as well as by its id.
  pub get_by_idempotency-put :
      (r : TaskRecord J) (s : TaskStore J) (scope : Scope)
      → r.task_id ≢ ""
      → scope_of r ≡ some scope
      → (get r.task_id (put r s) ≡ some r) × (get_by_idempotency scope (put r s) ≡ some r)
  unfolding put get get_by_idempotency
  get_by_idempotency-put r s scope real claims = ground (
    arith,
    get-put r.task_id r.task_id r s.records,
    get-put scope scope r.task_id s.idempotency,
    ==_refl scope,
    ==_refl r.task_id,
    eq_iff r.task_id "",
  )

  -- A list shows exactly the stored tasks of its owner and modality.
  list_owned_iff :
      (owner modality : String) (s : TaskStore J) (r : TaskRecord J)
      → Mem r (list_owned owner modality s)
        ↔ (Mem r (list_all s) × (r.owner_key_id ≡ owner) × (r.modality ≡ modality))
  unfolding list_owned list_all
  list_owned_iff owner modality s r =
      let iff =
        mem-keep (λ (q : TaskRecord J). q.owner_key_id == owner && q.modality == modality) r
          (values s.records) in
      (
        (λ m.
            let (at, both) = iff.0 m in
            (
              at,
              ground (arith, eq_iff r.owner_key_id owner),
              ground (arith, eq_iff r.modality modality),
            )),
        λ (at, own, kind).
            iff.1 (at, ground (arith, eq_iff r.owner_key_id owner, eq_iff r.modality modality)),
      )
