-- ===== src/Router/Fits.antt =====
-- `fits` decides the documented constraints: what a model must accept for the request to go there.
use mm_gateway.Router.Constraints.{
  AtMost, Admits, Passes, run_checks_sound, run_checks_complete, format_iff, speed_iff,
  modalities_iff, prompt_iff, image_iff, count_iff, duration_iff, fps_iff, side_iff, ratio_iff,
  frames_iff, sound_iff, music_iff, rate_iff,
}
use mm_gateway.Prelude.{
  ℕ, String, ◌≡◌, ◌↔◌, refl, Bool, true, false, Option, none, some, arith, is_some, All, nat_eq,
  string_eq,
}
use mm_gateway.Models.Limits.{ModelLimits, permissive}
use mm_gateway.Router.{RequestProfile, fits, run_checks, all_checks}

module _ (p : RequestProfile) (l : ModelLimits) where
  Admits-of_Passes : All (Passes p l) all_checks → Admits p l
  Admits-of_Passes
        (f, (sp, (md, (pr, (im, (co, (du, (fp, (si, (ra, (fr, (so, (mu, (rt, _)))))))))))))) =
      record {
        format = ((format_iff p l).0 f).0;
        instructions = ((format_iff p l).0 f).1;
        slow_enough = ((speed_iff p l).0 sp).0;
        fast_enough = ((speed_iff p l).0 sp).1;
        modalities = (modalities_iff p l).0 md;
        prompt = ((prompt_iff p l).0 pr).0;
        tokens = ((prompt_iff p l).0 pr).1;
        image = ((image_iff p l).0 im).0;
        images = ((image_iff p l).0 im).1;
        count = (count_iff p l).0 co;
        short_enough = ((duration_iff p l).0 du).0;
        long_enough = ((duration_iff p l).0 du).1;
        fps = (fps_iff p l).0 fp;
        side = (side_iff p l).0 si;
        ratio = (ratio_iff p l).0 ra;
        first_frame = ((frames_iff p l).0 fr).0;
        last_frame = ((frames_iff p l).0 fr).1;
        reference_video = ((frames_iff p l).0 fr).2;
        reference_audio = ((frames_iff p l).0 fr).3;
        sound = (sound_iff p l).0 so;
        lyrics = ((music_iff p l).0 mu).0;
        continuation = ((music_iff p l).0 mu).1;
        reference_image = ((music_iff p l).0 mu).2;
        sample_rate = (rate_iff p l).0 rt;
      }

  Passes-of_Admits : Admits p l → All (Passes p l) all_checks
  Passes-of_Admits a = (
    (format_iff p l).1 (a.format, a.instructions),
    (
      (speed_iff p l).1 (a.slow_enough, a.fast_enough),
      (
        (modalities_iff p l).1 a.modalities,
        (
          (prompt_iff p l).1 (a.prompt, a.tokens),
          (
            (image_iff p l).1 (a.image, a.images),
            (
              (count_iff p l).1 a.count,
              (
                (duration_iff p l).1 (a.short_enough, a.long_enough),
                (
                  (fps_iff p l).1 a.fps,
                  (
                    (side_iff p l).1 a.side,
                    (
                      (ratio_iff p l).1 a.ratio,
                      (
                        (frames_iff p l).1
                            (a.first_frame, a.last_frame, a.reference_video, a.reference_audio),
                        (
                          (sound_iff p l).1 a.sound,
                          (
                            (music_iff p l).1 (a.lyrics, a.continuation, a.reference_image),
                            ((rate_iff p l).1 a.sample_rate, tt),
                          ),
                        ),
                      ),
                    ),
                  ),
                ),
              ),
            ),
          ),
        ),
      ),
    ),
  )

is_some_outcome :
    (o : Option ℕ)
    → (o' : Bool × ℕ) → (elim o [ none ↦ (false, 0) | some hits ↦ (true, hits) ]) ≡ o'
    → (o'.0 ≡ true) ↔ (is_some o ≡ true)
is_some_outcome none o' e = ground arith
is_some_outcome (some n) o' e = ground arith

-- A request for media fits a model exactly when every limit of the model that `_fits` reads admits
-- it: file format, instructions and speed, input modalities, the prompt's characters and, whether
-- or not those are limited, its tokens, images, output count, duration, frame rate, longest side,
-- aspect ratio, frames and reference recordings, sound, lyrics, continuation and reference images,
-- and sample rate. Other documented limits, such as supported_sizes or max_shots, do not matter.
pub fits_iff :
    (p : RequestProfile) (l : ModelLimits)
    → p.wants_voice_clone ≡ false
    → ((fits p l).0 ≡ true) ↔ Admits p l
fits_iff p l media =
    let outcome =
      is_some_outcome (run_checks all_checks p l 0) (fits p l) (unfold fits in rw media refl) in
    (
      (λ h. Admits-of_Passes p l (run_checks_sound all_checks p l 0 (outcome.0 h))),
      λ a. outcome.1 (run_checks_complete all_checks p l 0 (Passes-of_Admits p l a)),
    )

-- A voice clone fits a model exactly when cloning is documented for it and the samples are not too
-- many; nothing else about the model or the request matters.
fits-clone_iff :
    (p : RequestProfile) (l : ModelLimits)
    → p.wants_voice_clone ≡ true
    → ((fits p l).0 ≡ true) ↔ (
        (l.supports_voice_cloning ≡ some true)
        × AtMost (some p.input_audio_count) l.max_voice_samples)
unfolding fits
fits-clone_iff p l clone = ground arith

-- A model about which nothing is documented takes every request for media.
fits-permissive :
    (p : RequestProfile) (modality : String)
    → p.wants_voice_clone ≡ false
    → (fits p (permissive modality)).0 ≡ true
fits-permissive p modality media = (fits_iff p (permissive modality) media).1 (ground arith)
