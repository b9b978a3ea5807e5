-- ===== src/Phone/Number.antt =====
-- Indian mobile numbers in one form: `normalisePhone`, `toProviderFormat` and `maskPhone`.
use backend_new.Basics.{
  ℕ, zero, suc, ◌-◌, Bool, false, not, ◌&&◌, ◌||◌, [], ◌∷◌, ltb, leb, ◌==◌, every, keep, length,
  Text, if◌then◌else◌, Result, ok, err,
}

pub data PhoneRefusal : Type 0 where
  not_digits wrong_length not_mobile : PhoneRefusal

-- `\\s`, and `(`, `)`, `-` and `.`; trimming takes off nothing else.
abbrev pub is_separator : ℕ → Bool
is_separator c =
    (leb 9 c && leb c 13)
    || ((c == 32)
        || ((c == 160)
            || ((c == 5760)
                || ((leb 8192 c && leb c 8202)
                    || ((c == 8232)
                        || ((c == 8233)
                            || ((c == 8239)
                                || ((c == 8287)
                                    || ((c == 12288)
                                        || ((c == 65279)
                                            || ((c == 40)
                                                || ((c == 41)
                                                    || ((c == 45) || (c == 46))))))))))))))

abbrev pub is_digit : ℕ → Bool
is_digit c = leb 48 c && leb c 57

abbrev pub strip_plus : Text → Text
strip_plus [] = []
strip_plus (c ∷ cs) = if c == 43 then cs else c ∷ cs

-- `/^\\d+$/`
abbrev pub all_digits : Text → Bool
all_digits [] = false
all_digits (c ∷ cs) = every is_digit (c ∷ cs)

abbrev pub starts_with_zero : Text → Bool
starts_with_zero [] = false
starts_with_zero (c ∷ cs) = c == 48

abbrev pub starts_with_code : Text → Bool
starts_with_code (c ∷ d ∷ cs) = (c == 57) && (d == 49)
starts_with_code _ = false

-- `slice(n)`
abbrev pub drop : ℕ → Text → Text
drop zero cs = cs
drop (suc n) [] = []
drop (suc n) (c ∷ cs) = drop n cs

-- `/^[6-9]\\d{9}$/`
abbrev pub is_national : Text → Bool
is_national [] = false
is_national (c ∷ cs) = (leb 54 c && leb c 57) && ((length cs == 9) && every is_digit cs)

abbrev pub e164 : Text → Text
e164 national = 43 ∷ 57 ∷ 49 ∷ national

abbrev pub checked : Text → Result PhoneRefusal Text
checked national = if is_national national then ok (e164 national) else err not_mobile

-- The number of what is left without separators and plus.
unfoldable pub national_of : Text → Result PhoneRefusal Text
national_of digits =
    if not (all_digits digits)
    then err not_digits
    else if length digits == 10
    then checked digits
    else if (length digits == 11) && starts_with_zero digits
    then checked (drop 1 digits)
    else if (length digits == 12) && starts_with_code digits
    then checked (drop 2 digits)
    else err wrong_length

unfoldable pub normalise_phone : Text → Result PhoneRefusal Text
normalise_phone input = national_of (strip_plus (keep (λ c. not (is_separator c)) input))

-- `toProviderFormat`
unfoldable pub to_provider_format : Text → Text
to_provider_format text = strip_plus text

-- `maskPhone`
unfoldable pub mask_phone : Text → Text
mask_phone text =
    if ltb (length text) 4
    then 42 ∷ 42 ∷ 42 ∷ 42 ∷ []
    else 43 ∷ 57 ∷ 49 ∷ 42 ∷ 42 ∷ 42 ∷ 42 ∷ 42 ∷ 42 ∷ drop (length text - 4) text
