-- ===== src/SignIn/Totp.antt =====
-- Time-based one-time passwords: src/utils/totp.ts. The HMAC of node:crypto is an argument: the
-- digest of a counter under a secret, as bytes.
use backend_new.Basics.{
  ℕ, zero, suc, ◌+◌, ◌-◌, ◌*◌, ◌/◌, ◌%◌, Bool, false, not, ◌&&◌, Option, none, some, List, [], ◌∷◌,
  leb, ◌==◌, length, every, Text, text_eq, if◌then◌else◌,
}

-- A byte of the digest; a place outside it reads as zero.
abbrev pub byte_at : List ℕ → ℕ → ℕ
byte_at [] i = 0
byte_at (b ∷ bs) zero = b
byte_at (b ∷ bs) (suc i) = byte_at bs i

-- `readUInt32BE`
abbrev pub read_u32 : List ℕ → ℕ → ℕ
read_u32 digest i =
    byte_at digest i * 16777216
    + byte_at digest (i + 1) * 65536
    + byte_at digest (i + 2) * 256
    + byte_at digest (i + 3)

abbrev digit : ℕ → ℕ
digit n = 48 + n % 10

-- `toString().padStart(6, "0")` of a number below a million.
abbrev pub six_digits : ℕ → Text
six_digits n =
    digit (n / 100000)
    ∷ digit (n / 10000)
    ∷ digit (n / 1000)
    ∷ digit (n / 100)
    ∷ digit (n / 10)
    ∷ digit n
    ∷ []

-- Thirty seconds a step; times are milliseconds.
unfoldable pub time_step : ℕ → ℕ
time_step at = at / 1000 / 30

abbrev is_digit : ℕ → Bool
is_digit c = leb 48 c && leb c 57

-- `/^\d{6}$/`
unfoldable pub is_code : Text → Bool
is_code code = (length code == 6) && every is_digit code

abbrev pub is_used : Option ℕ → ℕ → Bool
is_used none step = false
is_used (some last) step = leb step last

module _ (hmac : List ℕ → ℕ → List ℕ) where
  unfoldable pub totp_at : List ℕ → ℕ → Text
  totp_at secret step =
      let digest = hmac secret step in
      let offset = byte_at digest (length digest - 1) % 16 in
      six_digits (read_u32 digest offset % 2147483648 % 1000000)

  -- The first step of the list that is not used and whose code it is.
  unfoldable pub first_match : List ℕ → Text → Option ℕ → List ℕ → Option ℕ
  first_match secret code last [] = none
  first_match secret code last (step ∷ steps) =
      let rest = first_match secret code last steps in
      if not (is_used last step) && text_eq (totp_at secret step) code then some step else rest

  -- The clock reads at least one step after 1970.
  unfoldable pub verify_totp : List ℕ → Text → ℕ → Option ℕ → Option ℕ
  verify_totp secret code at last =
      let now = time_step at in
      if is_code code then first_match secret code last ((now - 1) ∷ now ∷ (now + 1) ∷ []) else none
