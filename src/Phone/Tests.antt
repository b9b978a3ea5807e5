-- ===== src/Phone/Tests.antt =====
-- Phone numbers at concrete inputs.
use backend_new.Basics.{◌≡◌, ◌↔◌, refl, [], ◌∷◌, Text, ok, err}
use backend_new.Phone.Number.{
  normalise_phone, national_of, to_provider_format, mask_phone, not_mobile,
}
use backend_new.Phone.Canonical.{Writes, bare_of, normalise_phone_iff}

-- "098765-43210"
abbrev dashed : Text
dashed = 48 ∷ 57 ∷ 56 ∷ 55 ∷ 54 ∷ 53 ∷ 45 ∷ 52 ∷ 51 ∷ 50 ∷ 49 ∷ 48 ∷ []

-- "+919876543210"
abbrev canonical : Text
canonical = 43 ∷ 57 ∷ 49 ∷ 57 ∷ 56 ∷ 55 ∷ 54 ∷ 53 ∷ 52 ∷ 51 ∷ 50 ∷ 49 ∷ 48 ∷ []

one_form : normalise_phone dashed ≡ ok canonical
unfolding normalise_phone national_of
one_form = refl

landline : normalise_phone (50 ∷ 57 ∷ 56 ∷ 55 ∷ 54 ∷ 53 ∷ 52 ∷ 51 ∷ 50 ∷ 49 ∷ []) ≡ err not_mobile
unfolding normalise_phone national_of
landline = refl

masked : mask_phone canonical ≡ 43 ∷ 57 ∷ 49 ∷ 42 ∷ 42 ∷ 42 ∷ 42 ∷ 42 ∷ 42 ∷ 51 ∷ 50 ∷ 49 ∷ 48 ∷ []
unfolding mask_phone
masked = refl

without_plus :
    to_provider_format canonical ≡ 57 ∷ 49 ∷ 57 ∷ 56 ∷ 55 ∷ 54 ∷ 53 ∷ 52 ∷ 51 ∷ 50 ∷ 49 ∷ 48 ∷ []
unfolding to_provider_format
without_plus = refl

normalise_phone_iff_example :
    (normalise_phone dashed ≡ ok canonical) ↔ Writes (bare_of dashed) canonical
normalise_phone_iff_example = normalise_phone_iff dashed canonical
