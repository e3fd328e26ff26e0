-- ===== src/Router.antt =====
-- mm_gateway/router.py: how a request's input profile is scored against a model's documented limits,
-- and which candidate is best. `RequestProfile.size` is left out: no profile sets it.
mod Checks
pub mod Constraints
pub mod Fits
pub mod Profile
pub mod Needs
pub mod Video
pub mod Image
pub mod Music
pub mod Best
use mm_gateway.Prelude.{
  ℕ, zero, ◌+◌, ◌*◌, ◌/◌, ◌-◌, max, String, ◌≡◌, Bool, true, false, ◌&&◌, ◌||◌, not, Option, none,
  some, List, [], ◌∷◌, map, ltb, leb, ◌==◌, nat_eq, string_eq, option_eq, contains, is_some, keep,
  if◌then◌else◌,
}
use mm_gateway.Prelude.Int.{pos, neg}
use mm_gateway.Prelude.Sort.{Key, sort_by}
use mm_gateway.Schemas.{empty?}
use mm_gateway.Models.Limits.{ModelLimits}
pub use Checks.{
  RequestProfile, truthy, larger, Check, veto, hit, over, under, denied, granted, subset, outside,
}
unfoldable pub use Checks.{
  explicit_side, check_format, check_speed, check_modalities, check_prompt, check_image,
  check_count, check_duration, check_fps, check_side, check_ratio, check_frames, check_sound,
  check_music, check_rate, check_clone,
}

-- Each check in the order of the source. The first veto ends the scoring.
abbrev pub all_checks : List Check
all_checks =
    check_format ∷ check_speed ∷ check_modalities ∷ check_prompt ∷ check_image ∷ check_count
    ∷ check_duration ∷ check_fps ∷ check_side ∷ check_ratio ∷ check_frames ∷ check_sound
    ∷ check_music ∷ check_rate ∷ []

abbrev pub run_checks : List Check → RequestProfile → ModelLimits → ℕ → Option ℕ
run_checks [] p l hits = some hits
run_checks (c ∷ cs) p l hits = elim (c p l) [ none ↦ none | some n ↦ run_checks cs p l (hits + n) ]

unfoldable pub fits : RequestProfile → ModelLimits → Bool × ℕ
unfolding check_clone check_format check_speed check_modalities check_prompt check_image check_count
    check_duration check_fps check_side check_ratio check_frames check_sound check_music check_rate
fits p l = elim (if p.wants_voice_clone then check_clone p l else run_checks all_checks p l 0) [
  | none ↦ (false, 0)
  | some hits ↦ (true, hits)
]

pub record Score : Type 0 where
  pub fits : Bool
  pub optional_hits : ℕ
  pub backend_index : ℕ
  pub model_index : ℕ

unfoldable pub score : RequestProfile → ModelLimits → ℕ → ℕ → Score
score p l b m =
    let (ok, hits) = fits p l in
    record { fits = ok; optional_hits = hits; backend_index = b; model_index = m }

abbrev pub score_key : Score → Key
score_key s = neg s.optional_hits ∷ pos s.backend_index ∷ pos s.model_index ∷ []

abbrev pub only_fitting : List Score → List Score
only_fitting = keep (λ s. s.fits)

abbrev pub head {ℓ} : {A : Type ℓ} → List A → Option A
head [] = none
head (x ∷ xs) = some x

unfoldable pub best : List Score → Option Score
best scores = head (sort_by score_key (only_fitting scores))

-- "".join(ch for ch in resolution if ch.isdigit()), as a number
abbrev pub is_digit : ℕ → Bool
is_digit c = leb b'0' c && leb c b'9'

abbrev pub digits_of : List ℕ → List ℕ
digits_of [] = []
digits_of (c ∷ cs) = if is_digit c then (c - b'0') ∷ digits_of cs else digits_of cs

unfoldable pub to_number : ℕ → List ℕ → ℕ
to_number n [] = n
to_number n (d ∷ ds) = to_number (n * 10 + d) ds

-- resolution.lower().endswith("k")
abbrev pub ends_in_k : List ℕ → Bool
ends_in_k [] = false
ends_in_k (c ∷ []) = c == b'k' || c == b'K'
ends_in_k (c ∷ d ∷ cs) = ends_in_k (d ∷ cs)

-- round(short * 16 / 9); a ninth is never a half
abbrev pub widescreen : ℕ → ℕ
widescreen short = (short * 32 + 9) / 18

unfoldable pub longest_side : RequestProfile → Option ℕ
unfolding explicit_side to_number
longest_side p = elim (explicit_side p) [
  | some side ↦ some side
  | none ↦ elim p.resolution [
    | none ↦ none
    | some text ↦
        let ds = digits_of text in
        if empty? ds
        then none
        else if ends_in_k text
        then some (to_number 0 ds * 960)
        else some (widescreen (to_number 0 ds))
  ]
]
