-- ===== src/Management/Revisions.antt =====
-- Updates under a revision: a stale editor is refused, a failure changes nothing.
use mm_gateway.Prelude.{
  ℕ, String, ◌≡◌, ◌≢◌, inl, inr, refl, sym, ◌∙◌, subst, true, false, Option, none, some, [], ◌∷◌,
  string_eq, nat_eq, arith, Bool-cases, Option-cases,
}
use mm_gateway.Schemas.{Text}
use mm_gateway.Secrets.{Json, Patterns, Cipher, encrypt}
use mm_gateway.Management.{restore}
use mm_gateway.Management.Service.{
  ManagementService, Refusal, precondition_required, precondition_failed, Circumstances, Reply,
  refused, answered, check_revision, same_text, done, installed, config_write_failed,
  invalid_config, not_found, schema_error, Configuration, strip_quotes, publish, apply, update,
  update_resource, edit_entries, canonical, matches_entry, section_of, mismatched, fields_with,
}

same_text_sound : (a b : Text) → same_text a b ≡ true → a ≡ b
same_text_sound [] [] h = refl
same_text_sound [] (b ∷ bs) h = cc
same_text_sound (a ∷ as') [] h = cc
same_text_sound (a ∷ as') (b ∷ bs) h = ground (arith, same_text_sound as' bs)

-- The revision that a call names.
abbrev pub Names : Option Text → Text → Type 0
Names none r = ⊥
Names (some t) r = strip_quotes t ≡ r

check_revision_sound :
    (if_match : Option Text) (s : ManagementService)
    → check_revision if_match s ≡ none
    → Names if_match s.revision
unfolding check_revision
check_revision_sound none s h = cc
check_revision_sound (some []) s h = cc
check_revision_sound (some (c ∷ cs)) s h =
    same_text_sound (strip_quotes (c ∷ cs)) s.revision (ground arith)

module _ (pats : Patterns) (cipher : Cipher) (validate : Json → Option Json)
    (prepare : Json → Json → Option Refusal) (host_of : String → Option String)
    (lower : String → String) where
  -- What an update that is answered has done.
  pub record IsPublished (now : Circumstances) (s s' : ManagementService) : Type 0 where
    pub revision : s'.revision ≡ now.fresh
    pub same_place : s'.persistent ≡ s.persistent
    pub config : Json
    pub running : s'.config ≡ canonical host_of lower config
    pub accepted :
        (merged : Json) × (validate merged ≡ some config) × (prepare s.config config ≡ none)
    pub written :
        s.persistent ≡ true
        → (w : Json) × (s'.stored ≡ some w) × (encrypt pats cipher config "" false ≡ some w)

  -- A refusal changes nothing; an answer publishes.
  abbrev pub Outcome : Circumstances → ManagementService → ManagementService × Reply → Type 0
  Outcome now s (s', refused problem) = s' ≡ s
  Outcome now s (s', answered view) = IsPublished now s s' × (view.revision ≡ now.fresh)

  unchanged :
      (now : Circumstances) (s : ManagementService) (problem : Refusal)
      (r : ManagementService × Reply)
      → r ≡ (s, refused problem)
      → Outcome now s r
  unchanged now s problem r e = subst (Outcome now s) (sym e) refl

  published :
      (now : Circumstances) (s : ManagementService) (merged config : Json) (stored : Option Json)
      (r : ManagementService × Reply)
      → r
        ≡ done pats cipher validate prepare host_of lower
            (installed pats cipher validate prepare host_of lower s config stored now.fresh)
      → validate merged ≡ some config
      → prepare s.config config ≡ none
      → (s.persistent ≡ true
          → (w : Json) × (stored ≡ some w) × (encrypt pats cipher config "" false ≡ some w))
      → Outcome now s r
  unfolding mm_gateway.Management.Service.configuration
  published now s merged config stored r e valid prepared kept = subst (Outcome now s) (sym e) (
    record {
      revision = refl;
      same_place = refl;
      config = config;
      running = refl;
      accepted = (merged, valid, prepared);
      written = kept;
    },
    refl,
  )

  carried :
      (now : Circumstances) (s : ManagementService) (r q : ManagementService × Reply)
      → r ≡ q
      → Outcome now s q
      → Outcome now s r
  carried now s r q e h = subst (Outcome now s) (sym e) h

  publish-Outcome :
      (now : Circumstances) (merged config : Json) (s : ManagementService)
      → validate merged ≡ some config
      → prepare s.config config ≡ none
      → Outcome now s (publish pats cipher validate prepare host_of lower now config s)
  publish-Outcome now merged config s valid prepared =
      let r = publish pats cipher validate prepare host_of lower now config s in
      elim (Bool-cases s.persistent) [
        | inr memory ↦
            published now s merged config s.stored r (unfold publish in simp memory) valid prepared
              (λ e. absurd (ground arith))
        | inl disk ↦ elim (Option-cases (encrypt pats cipher config "" false)) [
          | inl failed ↦
              unchanged now s config_write_failed r (unfold publish in simp (disk, failed))
          | inr (w, sealed) ↦ elim (Bool-cases now.writes) [
            | inr broken ↦
                unchanged now s config_write_failed r
                  (unfold publish in simp (disk, sealed, broken))
            | inl ok ↦
                published now s merged config (some w) r (unfold publish in simp (disk, sealed, ok))
                  valid prepared (λ e. (w, refl, sealed))
          ]
        ]
      ]

  apply-Outcome :
      (now : Circumstances) (incoming : Json) (s : ManagementService)
      → Outcome now s (apply pats cipher validate prepare host_of lower now incoming s)
  apply-Outcome now incoming s =
      let r = apply pats cipher validate prepare host_of lower now incoming s in
      elim (Option-cases (restore incoming s.config)) [
        | inl lost ↦ unchanged now s invalid_config r (unfold apply in ground arith)
        | inr (merged, back) ↦ elim (Option-cases (validate merged)) [
          | inl invalid ↦ unchanged now s invalid_config r (unfold apply in ground arith)
          | inr (config, valid) ↦ elim (Option-cases (prepare s.config config)) [
            | inr (problem, e) ↦ unchanged now s problem r (unfold apply in ground arith)
            | inl ready ↦
                carried now s r (publish pats cipher validate prepare host_of lower now config s)
                  (unfold apply in ground arith) (publish-Outcome now merged config s valid ready)
          ]
        ]
      ]

  update-Outcome :
      (now : Circumstances) (incoming : Json) (if_match : Option Text) (s : ManagementService)
      → Outcome now s (update pats cipher validate prepare host_of lower now incoming if_match s)
  update-Outcome now incoming if_match s =
      let r = update pats cipher validate prepare host_of lower now incoming if_match s in
      elim (Option-cases (check_revision if_match s)) [
        | inl current ↦
            carried now s r (apply pats cipher validate prepare host_of lower now incoming s)
              (unfold update in ground arith) (apply-Outcome now incoming s)
        | inr (problem, e) ↦ unchanged now s problem r (unfold update in ground arith)
      ]

  -- Editing one resource either is refused, for whatever reason, and leaves the service as it was,
  -- file and revision included; or is answered, and then the service has the fresh revision, which
  -- the answer shows, runs the canonical form of a configuration that the schema and the registry
  -- accepted, and, if it has a file, has written the accepted configuration to it encrypted.
  pub update_resource-Outcome :
      (now : Circumstances) (section id : String) (value : Option Json) (if_match : Option Text)
      (s : ManagementService)
      → Outcome now s (
          update_resource pats cipher validate prepare host_of lower now section id value if_match
            s)
  update_resource-Outcome now section id value if_match s =
      let r =
        update_resource pats cipher validate prepare host_of lower now section id value if_match
          s in
      let edited =
        edit_entries (matches_entry host_of lower section id) value (section_of section s.config) in
      elim (Option-cases (check_revision if_match s)) [
        | inr (problem, e) ↦ unchanged now s problem r (unfold update_resource in ground arith)
        | inl current ↦ elim (Bool-cases (mismatched host_of lower section id value)) [
          | inl other ↦ unchanged now s invalid_config r (unfold update_resource in ground arith)
          | inr same ↦ elim (Option-cases edited) [
            | inl missing ↦ unchanged now s not_found r (unfold update_resource in ground arith)
            | inr (xs, found) ↦ elim (Option-cases (validate (fields_with section xs s.config))) [
              | inl invalid ↦
                  unchanged now s schema_error r (unfold update_resource in ground arith)
              | inr (incoming, valid) ↦
                  carried now s r (apply pats cipher validate prepare host_of lower now incoming s)
                    (unfold update_resource in ground arith) (apply-Outcome now incoming s)
            ]
          ]
        ]
      ]

  stale_refused :
      (c : ℕ) (cs : Text) (old : Text) (later : Circumstances) (incoming : Json)
      (s : ManagementService)
      → strip_quotes (c ∷ cs) ≡ old
      → s.revision ≢ old
      → update pats cipher validate prepare host_of lower later incoming (some (c ∷ cs)) s
        ≡ (s, refused precondition_failed)
  unfolding update check_revision
  stale_refused c cs old later incoming s same new =
      elim (Bool-cases (same_text (strip_quotes (c ∷ cs)) s.revision)) [
        | inl current ↦
            absurd (new (sym (same_text_sound (strip_quotes (c ∷ cs)) s.revision current) ∙ same))
        | inr stale ↦ ground arith
      ]

  -- No update is lost: after an update was answered, an update by someone who names the revision
  -- from before it, quoted or not, is refused and changes nothing, if the update's fresh revision
  -- is another one.
  pub second_editor_refused :
      (now later : Circumstances) (first second : Json) (if_match : Option Text) (c : ℕ) (cs : Text)
      (s s' : ManagementService) (view : Configuration)
      → update pats cipher validate prepare host_of lower now first if_match s ≡ (s', answered view)
      → strip_quotes (c ∷ cs) ≡ s.revision
      → now.fresh ≢ s.revision
      → update pats cipher validate prepare host_of lower later second (some (c ∷ cs)) s'
        ≡ (s', refused precondition_failed)
  second_editor_refused now later first second if_match c cs s s' view e same fresh =
      let (done, shown) = subst (Outcome now s) e (update-Outcome now first if_match s) in
      stale_refused c cs s.revision later second s' same (λ q. fresh (sym done.revision ∙ q))
