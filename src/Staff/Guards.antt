-- ===== src/Staff/Guards.antt =====
-- What the writes of staff administration keep, read off their guards.
use backend_new.Basics.{
  ℕ, ◌≡◌, refl, true, false, not, some, List, [], ◌∷◌, ◌++◌, ◌==◌, keep, find, Result, ok, err,
  arith, Bool-cases, Bool, if◌then◌else◌, Option-cases, inl, inr, subst, sym,
}
use backend_new.Staff.Hierarchy.{RoleKey, same_role, holds}
use backend_new.Staff.Store.{Staff, Db, Actor, Refusal, has_id}
use backend_new.Staff.Admin.{Reply, guarded, after_check, on_target}

pub guarded-keeps :
    (P : Db → Type 0) (m : Result Refusal (Unit {0})) (before after : Db)
    → P before
    → (m ≡ ok tt → P after)
    → P (guarded m before after).0
guarded-keeps P (ok u) before after old new = new refl
guarded-keeps P (err e) before after old new = old

pub after_check-keeps :
    (P : Db → Type 0) (m : Result Refusal (Unit {0})) (db : Db) (next : Reply)
    → P db
    → P next.0
    → P (after_check m db next).0
after_check-keeps P (ok u) db next old new = new
after_check-keeps P (err e) db next old new = old

pub if-keeps : (P : Db → Type 0) (b : Bool) (x y : Reply) → P x.0 → P y.0 → P (if b then x else y).0
if-keeps P true x y px py = px
if-keeps P false x y px py = py

pub on_target-keeps :
    (P : Db → Type 0) (actor : Actor) (id : ℕ) (db : Db) (f : Staff → Reply)
    → P db
    → ((t : Staff)
        → (actor.staff_id == id) ≡ false
        → find (has_id id) db.staff ≡ some t
        → P (f t).0)
    → P (on_target actor id db f).0
on_target-keeps P actor id db f old new = elim (Bool-cases (actor.staff_id == id)) [
  | inl own ↦ rw (own, on_target) old
  | inr apart ↦ elim (Option-cases (find (has_id id) db.staff)) [
    | inl missing ↦ rw (apart, missing, on_target) old
    | inr (t, here) ↦ rw (apart, here, on_target) (new t apart here)
  ]
]

pub same_role-eq : (a b : RoleKey) → same_role a b ≡ true → a ≡ b
same_role-eq a b e = ground arith

pub same_role_refl : (a : RoleKey) → same_role a a ≡ true
same_role_refl a = ground arith

-- A role that is not taken away stays.
pub holds_kept :
    (k : RoleKey) (keys gone more : List RoleKey)
    → holds k keys ≡ true
    → holds k gone ≡ false
    → holds k (keep (λ x. not (holds x gone)) keys ++ more) ≡ true
holds_kept k [] gone more h g = absurd (cc)
holds_kept k (x ∷ xs) gone more h g = elim (Bool-cases (same_role x k)) [
  | inl here ↦
      let is = same_role-eq x k here in
      let stays : holds x gone ≡ false = subst (λ y. holds y gone ≡ false) (sym is) g in
      rw (stays, here)
  | inr elsewhere ↦
      let rest = holds_kept k xs gone more (rw elsewhere at h) g in
      elim (Bool-cases (holds x gone)) [
        | inl taken ↦ rw taken rest
        | inr left ↦ rw (left, elsewhere) rest
      ]
]
