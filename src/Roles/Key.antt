-- ===== src/Roles/Key.antt =====
-- The key of a role, made of its name: `roleKeyFrom` of src/utils/role-key.ts.
use backend_new.Basics.{
  ℕ, Bool, true, false, ◌&&◌, [], ◌∷◌, leb, ◌==◌, Text, if◌then◌else◌, suc, zero,
}

-- `A` to `Z`
abbrev pub is_capital : ℕ → Bool
is_capital c = leb 65 c && leb c 90

abbrev pub underscore : ℕ
underscore = 95

-- `.replace(/[^A-Z]+/g, "_")`: one underscore for each run of other characters; `inside` says that
-- the character before was one of them.
abbrev pub squash : (inside : Bool) → Text → Text
squash inside [] = []
squash inside (c ∷ cs) =
    let run = squash true cs in
    let word = squash false cs in
    if is_capital c then c ∷ word else if inside then run else underscore ∷ run

abbrev pub trim_start : Text → Text
trim_start [] = []
trim_start (c ∷ cs) = let rest = trim_start cs in if c == underscore then rest else c ∷ cs

-- An end of underscores is cut off.
abbrev pub put_before : ℕ → Text → Text
put_before c [] = if c == underscore then [] else c ∷ []
put_before c (d ∷ ds) = c ∷ d ∷ ds

abbrev pub trim_end : Text → Text
trim_end [] = []
trim_end (c ∷ cs) = put_before c (trim_end cs)

-- `.slice(0, n)`
abbrev pub take : ℕ → Text → Text
take zero cs = []
take (suc n) [] = []
take (suc n) (c ∷ cs) = c ∷ take n cs

-- `to_upper` is `String.toUpperCase`.
unfoldable pub role_key_from : (to_upper : Text → Text) → Text → Text
role_key_from to_upper name =
    trim_end (take 40 (trim_end (trim_start (squash false (to_upper name)))))
