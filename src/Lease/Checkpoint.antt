-- ===== src/Lease/Checkpoint.antt =====
-- `projection_checkpoints` and the statements of src/services/job-lease.ts on it. An instance of the
-- service is a number; `now` is the clock of the database, which all instances share.
use backend_new.Basics.{
  ℕ, ◌+◌, Bool, false, ◌&&◌, ◌||◌, Option, none, some, List, ◌∷◌, ltb, Text, text_eq, any, find,
  update_where, same_option, is_none, if◌then◌else◌,
}

pub record Checkpoint : Type 0 where
  pub name : Text
  pub lease_until : Option ℕ
  pub lease_holder : Option ℕ
  pub watermark : Option ℕ

abbrev pub is_named : Text → Checkpoint → Bool
is_named name c = text_eq c.name name

-- `"leaseUntil" < now()`, which is not true of a null.
abbrev pub is_before : Option ℕ → ℕ → Bool
is_before none now = false
is_before (some t) now = ltb t now

-- The rows that an update takes.
abbrev pub may_take : Text → ℕ → ℕ → Checkpoint → Bool
may_take name me now c =
    is_named name c
    && (is_none c.lease_until
        || (is_before c.lease_until now || same_option c.lease_holder (some me)))

abbrev pub taken : ℕ → ℕ → ℕ → Checkpoint → Checkpoint
taken me now ms c = record c { lease_until = some (now + ms); lease_holder = some me }

-- `INSERT … ON CONFLICT (name) DO NOTHING`
unfoldable pub ensure : Text → List Checkpoint → List Checkpoint
ensure name rows =
    if any (is_named name) rows
    then rows
    else record { name = name; lease_until = none; lease_holder = none; watermark = none } ∷ rows

unfoldable pub acquire_job_lease : ℕ → ℕ → Text → ℕ → List Checkpoint → List Checkpoint × Bool
acquire_job_lease me now name ms rows = (
  update_where (may_take name me now) (taken me now ms) (ensure name rows),
  any (may_take name me now) (ensure name rows),
)

abbrev pub is_held_by : Text → ℕ → Checkpoint → Bool
is_held_by name me c = is_named name c && same_option c.lease_holder (some me)

abbrev pub given_back : Option ℕ → Checkpoint → Checkpoint
given_back none c = record c { lease_until = none; lease_holder = none }
given_back (some t) c = record c { lease_until = none; lease_holder = none; watermark = some t }

unfoldable pub release_job_lease : ℕ → Text → Option ℕ → List Checkpoint → List Checkpoint
release_job_lease me name completed_at rows =
    update_where (is_held_by name me) (given_back completed_at) rows

unfoldable pub job_last_completed : Text → List Checkpoint → Option ℕ
job_last_completed name rows = elim (find (is_named name) rows) [
  | none ↦ none
  | some c ↦ c.watermark
]
