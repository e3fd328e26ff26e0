-- ===== src/Registry/Auto/Best.antt =====
-- Which model auto-routing takes.
use mm_gateway.Prelude.{
  ℕ, ◌≤◌, ◌⊎◌, not, String, ◌≡◌, Bool, true, false, Option, List, ◌∷◌, string_eq, option_eq, All,
}
use mm_gateway.Prelude.Int.{pos, neg}
use mm_gateway.Prelude.Sort.{Key, sort_by}
use mm_gateway.Config.{KeyConfig}
use mm_gateway.Models.Catalog.{Catalog}
use mm_gateway.Router.{RequestProfile}
use mm_gateway.Registry.{Registry, key_default_backend, key_default_tag}
use mm_gateway.Registry.Serving.{flag}
use mm_gateway.Registry.Auto.{AutoCandidate, pinned_to, fitting, rank_auto_candidates}
use mm_gateway.Registry.Auto.Suits.{Suits}

module _ {R : Type 0} (catalog : Catalog) (profile : RequestProfile) (modality : String)
    (limited : String → String → String → Bool) (health : String → String → String → ℕ)
    (r : Registry R) (tag : Option String) where
  -- A candidate's rank begins with its rate limit and its health.
  abbrev IsKeyed : AutoCandidate → Type 0
  IsKeyed c =
      (static : Key) × (c.rank
        ≡ pos (flag (not (limited c.backend c.account c.model)))
          ∷ neg (health c.backend c.account c.model)
          ∷ static)

  abbrev pub IsSuitable : AutoCandidate → Type 0
  IsSuitable c = Suits catalog profile modality limited health r tag c.backend c.model

  abbrev IsRanked : AutoCandidate → Type 0
  IsRanked c = IsSuitable c × IsKeyed c

  -- The second candidate is no better than the first: it is rate-limited and the first is not, or they
  -- are in the same state and its health score is not higher.
  abbrev pub IsNoBetter : AutoCandidate → AutoCandidate → Type 0
  IsNoBetter c d =
      ((limited c.backend c.account c.model ≡ false) × (limited d.backend d.account d.model ≡ true))
      ⊎ ((limited c.backend c.account c.model ≡ limited d.backend d.account d.model)
          × (health d.backend d.account d.model ≤ health c.backend c.account c.model))

  -- The first is suitable, and every other candidate is no better.
  abbrev pub IsBest : AutoCandidate → List AutoCandidate → Type 0
  IsBest c rest = IsSuitable c × All (IsNoBetter c) rest

  -- The candidates that the loops score, ranked.
  abbrev candidates : Option KeyConfig → Option String → List String → List AutoCandidate
  candidates key backend_name names =
      rank_auto_candidates catalog profile modality limited health r (
        sort_by (λ (t : Key × String × String). t.0)
          (fitting catalog profile modality limited health r tag (key_default_backend key modality)
            (key_default_tag key modality) 0 (pinned_to backend_name names)))
