-- ===== src/Tests/Management.antt =====
-- A configuration with one secret, read, edited and published.
use mm_gateway.Prelude.{
  String, ◌≡◌, refl, true, false, Option, none, some, [], ◌∷◌, nat_eq, string_eq, option_eq, inl,
}
use mm_gateway.Schemas.{Text}
use mm_gateway.Secrets.{
  Json, null, text, array, object, cons, nil, end, field, decrypt, encrypt, encrypt_text, is_secret,
}
use mm_gateway.Secrets.RoundTrip.{IsCovered}
use mm_gateway.Management.{redact, restore, redacted, identity, by_identity}
use mm_gateway.Management.Hidden.{IsHidden, redact-IsHidden}
use mm_gateway.Management.Restored.{IsRestorable, restore-redact}
use mm_gateway.Management.Service.{
  ManagementService, Refusal, Circumstances, Configuration, answered, refused, precondition_failed,
  update, update_resource, apply, publish, canonical, configuration, check_revision,
}
use mm_gateway.Management.Revisions.{Outcome, update_resource-Outcome, second_editor_refused}
use mm_gateway.Management.Stored.{update-IsStored}
use mm_gateway.Tests.Secrets.{settings, cipher, patterns, settings-IsPlain}

-- Two backends; the list is edited under their names.
abbrev pool : Json
pool = object (
    field "backends"
      (array (
        cons settings
          (cons (object (field "name" (text "b") (field "api_key" (text "u") end))) nil)))
      end)

pool-IsRestorable : IsRestorable patterns pool "" false
unfolding IsRestorable redact is_secret identity by_identity
pool-IsRestorable = (
  refl,
  (
    (
      inl ("a", refl, refl, (refl, (tt, (refl, (tt, tt))))),
      (inl ("b", refl, refl, (refl, (tt, (refl, (tt, tt))))), tt),
    ),
    tt,
  ),
)

restore-redact_example : restore (redact patterns pool "" false) pool ≡ some pool
restore-redact_example = restore-redact patterns pool "" false pool-IsRestorable

redact-IsHidden_example : IsHidden patterns (redact patterns pool "" false) "" false
redact-IsHidden_example = redact-IsHidden patterns pool "" false

abbrev service : ManagementService
service = record { revision = 1 ∷ []; config = settings; persistent = true; stored = none }

abbrev now : Circumstances
now = record { fresh = 2 ∷ []; writes = true }

abbrev anything : Json → Option Json
anything v = some v

abbrev ready : Json → Json → Option Refusal
ready old new = none

abbrev no_host : String → Option String
no_host url = none

abbrev same : String → String
same name = name

abbrev edited : ManagementService
edited = record service {
  revision = 2 ∷ [];
  stored = some (object (field "name" (text "a") (field "api_key" (text "enc:v1:1") end)));
}

abbrev view : Configuration
view = record {
  revision = 2 ∷ [];
  persistent = true;
  config = object (
      field "name" (text "a") (field "api_key" (text redacted) (field "backends" (array nil) end)));
}

-- What the administrator saw, sent back.
abbrev sent : Json
sent = object (field "name" (text "a") (field "api_key" (text redacted) end))

-- The revision in quotes.
abbrev if_match : Text
if_match = b'"' ∷ 1 ∷ b'"' ∷ []

updated :
    update patterns cipher anything ready no_host same now sent (some if_match) service
    ≡ (edited, answered view)
unfolding update apply publish canonical configuration check_revision restore redact encrypt
    encrypt_text is_secret
updated = refl

second_editor_refused_example :
    update patterns cipher anything ready no_host same now settings (some if_match) edited
    ≡ (edited, refused precondition_failed)
second_editor_refused_example =
    second_editor_refused patterns cipher anything ready no_host same now now sent settings
      (some if_match) b'"' (1 ∷ b'"' ∷ []) service edited view updated refl (λ e. cc)

restored : restore sent settings ≡ some settings
unfolding restore
restored = refl

-- A proxy that is stored without a domain runs with its host.
domain_reported :
    canonical no_host same (
      object (
        field "proxies"
          (array (
            cons
              (object (field "domain" null (field "base_url" (text "https://a.example") end)))
              nil))
          end))
    ≡ object (
        field "proxies"
          (array (
            cons
              (object (
                field "domain"
                  (text "https://a.example")
                  (field "base_url" (text "https://a.example") end)))
              nil))
          end)
unfolding canonical
domain_reported = refl

update-IsStored_example :
    (w : Json) × (edited.stored ≡ some w)
    × (decrypt cipher w ≡ some settings)
    × (edited.config ≡ canonical no_host same settings)
    × IsCovered patterns cipher w "" false
update-IsStored_example =
    update-IsStored patterns cipher anything ready no_host same now sent settings settings
      (some if_match) service edited view updated restored refl refl settings-IsPlain

update_resource-Outcome_example : Outcome patterns cipher anything ready no_host same now service (
    update_resource patterns cipher anything ready no_host same now "keys" "k" none
      (some if_match)
      service)
update_resource-Outcome_example =
    update_resource-Outcome patterns cipher anything ready no_host same now "keys" "k" none
      (some if_match) service
