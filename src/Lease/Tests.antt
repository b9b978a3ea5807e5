-- ===== src/Lease/Tests.antt =====
-- A lease at concrete inputs.
use backend_new.Basics.{◌≡◌, refl, true, false, [], ◌∷◌, Text, arith, text_eq}
use backend_new.Lease.Checkpoint.{ensure, acquire_job_lease}
use backend_new.Lease.Exclusion.{idle, acquire, lease_excludes}

abbrev job : Text
job = 110 ∷ 97 ∷ 118 ∷ []

-- Instance 1 takes the lease at 100 for 50.
first : (acquire_job_lease 1 100 job 50 []).1 ≡ true
unfolding acquire_job_lease ensure text_eq
first = refl

lease_excludes_example :
    (acquire_job_lease 2 150 job 50
      (acquire_job_lease 2 120 job 50 (acquire_job_lease 1 100 job 50 []).0).0).1
    ≡ false
lease_excludes_example =
    lease_excludes job 1 100 50 []
      (acquire_job_lease 2 120 job 50 (acquire_job_lease 1 100 job 50 []).0).0 2 150 50
      (omega arith) first
      (acquire 2 120 50 job (omega arith) (omega arith)
        (idle (acquire_job_lease 1 100 job 50 []).0))
      (omega arith) (omega arith)

-- Instance 2 takes it when it has run out.
later : (acquire_job_lease 2 151 job 50 (acquire_job_lease 1 100 job 50 []).0).1 ≡ true
unfolding acquire_job_lease ensure text_eq
later = refl
