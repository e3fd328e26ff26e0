-- ===== src/Translators/Responses.antt =====
-- mm_gateway/translators/rest.py: a finished task's outputs, usage and error as the public response shows
-- them. Costs are signed multiples of 1e-9 USD; of a usage, the cost and where it comes from are kept, the
-- rest is handed on.
use mm_gateway.Prelude.{
  String, Bool, true, false, ◌||◌, Option, none, some, List, [], ◌∷◌, if◌then◌else◌, ◌==◌,
  string_eq,
}
use mm_gateway.Prelude.Int.{ℤ}
use mm_gateway.Schemas.{Text, or_empty, given}
use mm_gateway.Translators.{data_uri, or_text, image_png}

pub data CostSource : Type 0 where
  provider estimate : CostSource

pub record Usage : Type 0 where
  pub cost : Option ℤ
  pub cost_source : Option CostSource
  pub in_usd : Bool

-- Usage()
abbrev pub no_usage : Usage
no_usage = record { cost = none; cost_source = none; in_usd = false }

abbrev pub usage_or : Option Usage → Usage
usage_or none = no_usage
usage_or (some u) = u

-- The estimate is the one of the record's routing, if it has any.
unfoldable pub with_cost : Option Usage → String → Option ℤ → Option Usage
with_cost usage status estimated =
    let base = usage_or usage in
    elim base.cost [
      | some cost ↦ some (record base { cost_source = some provider; in_usd = true })
      | none ↦
          if status == "succeeded"
          then (elim estimated [
            | none ↦ usage
            | some e ↦
                some (record base { cost = some e; cost_source = some estimate; in_usd = true })
          ])
          else usage
    ]

pub record ImageData : Type 0 where
  pub url : Option Text
  pub b64_json : Option Text
  pub media_type : Option Text

pub record ImageOutput : Type 0 where
  pub uri : Text
  pub mime_type : Option Text

unfoldable pub image_output : ImageData → ImageOutput
unfolding data_uri
image_output item = record {
  uri =
      or_text (or_empty item.url)
        (data_uri (or_empty item.b64_json) (or_text (or_empty item.media_type) image_png));
  mime_type = item.media_type;
}

-- Items without a URL and without data are left out.
unfoldable pub image_outputs : List ImageData → List ImageOutput
unfolding image_output
image_outputs [] = []
image_outputs (i ∷ items) =
    let rest = image_outputs items in
    if given i.url || given i.b64_json then image_output i ∷ rest else rest
