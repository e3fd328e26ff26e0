-- ===== src/Tests/Auto.antt =====
-- Auto-routing over two backends, the first of which is limited.
use mm_gateway.Prelude.{ℕ, String, Bool, false, some, [], ◌∷◌, ◌==◌, string_eq, option_eq}
use mm_gateway.Prelude.Dict
use mm_gateway.Prelude.Int.{pos, negsuc}
use mm_gateway.Registry.Auto.{AutoCandidate}

abbrev limited : String → String → String → Bool
limited backend account model = backend == "a"

abbrev fresh : String → String → String → ℕ
fresh backend account model = 5000000

abbrev at_b : AutoCandidate
at_b = record {
  rank = pos 0 ∷ negsuc 4999999 ∷ pos 1 ∷ pos 1 ∷ negsuc 2 ∷ pos 1 ∷ pos 0 ∷ [];
  account = "default";
  model = "v";
  backend = "b";
}
