-- ===== src/Router/Needs.antt =====
-- What a request needs of a model: a set of modalities, and sides.
use mm_gateway.Prelude.{
  ◌≡◌, ◌⊎◌, inl, inr, Option, Bool, true, false, List, [], ◌++◌, arith, contains, string_eq, String,
  ℕ,
}
use mm_gateway.Models.Limits.{ModelLimits}
use mm_gateway.Router.{subset, truthy, larger}
use mm_gateway.Router.Constraints.{AtMost}
use mm_gateway.Router.Profile.{add_if}

-- A modality that the request has is one that the model takes, if any are documented.
abbrev pub Takes : ModelLimits → String → Type 0
Takes l name = (l.input_modalities ≡ []) ⊎ (contains l.input_modalities name ≡ true)

abbrev pub Covered : ModelLimits → List String → Type 0
Covered l names = (l.input_modalities ≡ []) ⊎ (subset names l.input_modalities ≡ true)

pub Covered-add_if :
    (l : ModelLimits) (b : Bool) (name : String) (names : List String)
    → Covered l (add_if b name ++ names)
    → (b ≡ true → Takes l name) × Covered l names
Covered-add_if l true name names (inl e) = (λ _. inl e, inl e)
Covered-add_if l true name names (inr e) = ground arith
Covered-add_if l false name names h = (λ e. cc, h)

pub Takes-of_Covered :
    (l : ModelLimits) (b : Bool) (name : String)
    → Covered l (add_if b name)
    → b ≡ true
    → Takes l name
Takes-of_Covered l true name (inl e) h = inl e
Takes-of_Covered l true name (inr e) h = ground arith
Takes-of_Covered l false name c h = cc

pub AtMost-larger :
    (w h limit : Option ℕ)
    → AtMost (larger (truthy w) (truthy h)) limit
    → AtMost w limit × AtMost h limit
AtMost-larger w h limit a = ground arith
