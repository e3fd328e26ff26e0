-- ===== src/Translators/MusicParts.antt =====
-- The parts of a public music request, and what the translated content tells of them.
use mm_gateway.Prelude.{◌≡◌, refl, Bool, true, false, not, List, [], ◌∷◌, arith, any, ◌++◌}
use mm_gateway.Schemas.{Text, given, has_text, empty?, or_none, joined, join_lines, given-joined}
use mm_gateway.Schemas.Music
use mm_gateway.Schemas.Music.{AudioRole, reference_audio, continuation_audio}
use mm_gateway.Schemas.Rest.{
  MusicInputPart, music_text, lyrics_input, music_image_input, music_audio_input,
}
use mm_gateway.Translators.{music_content, lyrics_parts}

abbrev pub is_spoken : MusicInputPart → Bool
is_spoken (music_text t) = has_text t
is_spoken _ = false

abbrev pub is_lyrics : MusicInputPart → Bool
is_lyrics (lyrics_input t) = has_text t
is_lyrics _ = false

abbrev pub is_image : MusicInputPart → Bool
is_image (music_image_input uri) = true
is_image _ = false

abbrev pub is_reference : MusicInputPart → Bool
is_reference (music_audio_input uri reference_audio) = true
is_reference _ = false

-- The first recording to continue, if there is one, has a URI that is not empty.
abbrev pub continues : List MusicInputPart → Bool
continues [] = false
continues (music_audio_input uri continuation_audio ∷ ps) = has_text uri
continues (_ ∷ ps) = continues ps

pub texts-map :
    (ps : List MusicInputPart) → any has_text (Music.texts (music_content ps)) ≡ any is_spoken ps
unfolding music_content
texts-map [] = refl
texts-map (music_text t ∷ ps) = ground (arith, texts-map ps)
texts-map (lyrics_input t ∷ ps) = texts-map ps
texts-map (music_image_input uri ∷ ps) = texts-map ps
texts-map (music_audio_input uri role ∷ ps) = texts-map ps

pub lyrics-any : (ps : List MusicInputPart) → any has_text (lyrics_parts ps) ≡ any is_lyrics ps
unfolding lyrics_parts
lyrics-any [] = refl
lyrics-any (music_text t ∷ ps) = lyrics-any ps
lyrics-any (lyrics_input t ∷ ps) = ground (arith, lyrics-any ps)
lyrics-any (music_image_input uri ∷ ps) = lyrics-any ps
lyrics-any (music_audio_input uri role ∷ ps) = lyrics-any ps

pub images-any :
    (ps : List MusicInputPart) → not (empty? (Music.images_in (music_content ps))) ≡ any is_image ps
unfolding music_content
images-any [] = refl
images-any (music_text t ∷ ps) = images-any ps
images-any (lyrics_input t ∷ ps) = images-any ps
images-any (music_image_input uri ∷ ps) = refl
images-any (music_audio_input uri role ∷ ps) = images-any ps

pub references-any :
    (ps : List MusicInputPart)
    → not (empty? (Music.audios_in reference_audio (music_content ps))) ≡ any is_reference ps
unfolding music_content
references-any [] = refl
references-any (music_text t ∷ ps) = references-any ps
references-any (lyrics_input t ∷ ps) = references-any ps
references-any (music_image_input uri ∷ ps) = references-any ps
references-any (music_audio_input uri reference_audio ∷ ps) = refl
references-any (music_audio_input uri continuation_audio ∷ ps) = references-any ps

pub continuation-any :
    (ps : List MusicInputPart)
    → given (Music.first_of (Music.audios_in continuation_audio (music_content ps))) ≡ continues ps
unfolding music_content
continuation-any [] = refl
continuation-any (music_text t ∷ ps) = continuation-any ps
continuation-any (lyrics_input t ∷ ps) = continuation-any ps
continuation-any (music_image_input uri ∷ ps) = continuation-any ps
continuation-any (music_audio_input uri reference_audio ∷ ps) = continuation-any ps
continuation-any (music_audio_input uri continuation_audio ∷ ps) = refl

pub given-or_none :
    (ts : List Text) → any has_text ts ≡ true → given (or_none (join_lines ts)) ≡ true
given-or_none [] h = cc
given-or_none ([] ∷ []) h = cc
given-or_none ((c ∷ cs) ∷ []) h = refl
given-or_none ([] ∷ u ∷ ts) h = refl
given-or_none ((c ∷ cs) ∷ u ∷ ts) h = refl

pub any-append : (ts us : List Text) → any has_text us ≡ true → any has_text (ts ++ us) ≡ true
any-append [] us h = h
any-append (t ∷ ts) us h = ground (arith, any-append ts us h)

pub any-labelled : (t : Text) → has_text t ≡ true → any has_text (Music.labelled [] t) ≡ true
any-labelled [] h = cc
any-labelled (c ∷ cs) h = refl

-- A prompt makes the description of the music, whatever the title and the style.
pub given-description :
    (titles styles : List Text) (t : Text)
    → has_text t ≡ true
    → given (joined (titles ++ (styles ++ Music.labelled [] t))) ≡ true
given-description titles styles t h = given-joined (titles ++ (styles ++ Music.labelled [] t)) (
    any-append titles (styles ++ Music.labelled [] t)
      (any-append styles (Music.labelled [] t) (any-labelled t h)))
