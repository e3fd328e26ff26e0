-- ===== src/Management/Stored.antt =====
-- What the configuration file holds after an update.
use mm_gateway.Prelude.{
  String, ◌≡◌, inl, inr, sym, ◌∙◌, true, false, Option, some, string_eq, nat_eq, arith, Bool-cases,
  Option-cases,
}
use mm_gateway.Schemas.{Text}
use mm_gateway.Secrets.{Json, Patterns, Cipher, encrypt, decrypt}
use mm_gateway.Secrets.RoundTrip.{IsPlain, IsCovered, decrypt-encrypt}
use mm_gateway.Management.{restore}
use mm_gateway.Management.Service.{
  ManagementService, Refusal, Circumstances, answered, check_revision, Configuration, publish,
  apply, update, canonical,
}

module _ (pats : Patterns) (cipher : Cipher) (validate : Json → Option Json)
    (prepare : Json → Json → Option Refusal) (host_of : String → Option String)
    (lower : String → String) where
  publish_stored :
      (now : Circumstances) (config : Json) (s s' : ManagementService) (view : Configuration)
      → publish pats cipher validate prepare host_of lower now config s ≡ (s', answered view)
      → s.persistent ≡ true
      → (s'.config ≡ canonical host_of lower config)
        × ((w : Json) × (s'.stored ≡ some w) × (encrypt pats cipher config "" false ≡ some w))
  unfolding publish
  publish_stored now config s s' view e disk =
      elim (Option-cases (encrypt pats cipher config "" false)) [
        | inl failed ↦ absurd (ground arith)
        | inr (w, sealed) ↦ elim (Bool-cases now.writes) [
          | inr broken ↦ absurd (ground arith)
          | inl ok ↦ (ground arith, (w, ground arith, sealed))
        ]
      ]

  update-publish :
      (now : Circumstances) (incoming merged config : Json) (if_match : Option Text)
      (s s' : ManagementService) (view : Configuration)
      → update pats cipher validate prepare host_of lower now incoming if_match s
        ≡ (s', answered view)
      → restore incoming s.config ≡ some merged
      → validate merged ≡ some config
      → publish pats cipher validate prepare host_of lower now config s ≡ (s', answered view)
  unfolding update apply
  update-publish now incoming merged config if_match s s' view e back valid =
      elim (Option-cases (check_revision if_match s)) [
        | inr (problem, stale) ↦ absurd (ground arith)
        | inl current ↦ elim (Option-cases (prepare s.config config)) [
          | inr (problem, broken) ↦ absurd (ground arith)
          | inl ready ↦ ground arith
        ]
      ]

  -- After an answered update of a service with a configuration file, if no text of the accepted
  -- configuration (what was sent, with its secrets restored, as the schema reads it) is encrypted
  -- already and the cipher opens what it seals, then the file holds a document that decrypts to the
  -- accepted configuration and in which no secret is readable, and the service runs the canonical
  -- form of that configuration, in which every proxy's domain is its host.
  pub update-IsStored :
      (now : Circumstances) (incoming merged config : Json) (if_match : Option Text)
      (s s' : ManagementService) (view : Configuration)
      → update pats cipher validate prepare host_of lower now incoming if_match s
        ≡ (s', answered view)
      → restore incoming s.config ≡ some merged
      → validate merged ≡ some config
      → s.persistent ≡ true
      → IsPlain cipher config
      → (w : Json) × (s'.stored ≡ some w)
        × (decrypt cipher w ≡ some config)
        × (s'.config ≡ canonical host_of lower config)
        × IsCovered pats cipher w "" false
  update-IsStored now incoming merged config if_match s s' view e back valid disk plain =
      let answer = update-publish now incoming merged config if_match s s' view e back valid in
      let (running, (w, kept, sealed)) = publish_stored now config s s' view answer disk in
      let (v, sealed', opened, covered) = decrypt-encrypt pats cipher config "" false plain in
      (v, kept ∙ (sym sealed ∙ sealed'), opened, running, covered)
