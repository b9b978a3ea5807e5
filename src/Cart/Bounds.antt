-- ===== src/Cart/Bounds.antt =====
-- A cart holds at most twenty lines, ten of them one-time, and one line for a fund and type.
use backend_new.Basics.{
  ℕ, zero, suc, ◌+◌, ◌≤◌, ◌≡◌, refl, ap, subst, inl, inr, Bool, true, false, not, ◌&&◌, List, [],
  ◌∷◌, ◌++◌, ◌==◌, ==_iff, find, any, keep, count, update_where, count-update_where, any-eq_false,
  if◌then◌else◌, ok, throw_if, throw_if-eq_ok, step-ok, Result-cases, Option-cases, Bool-cases,
  arith, length,
}
use backend_new.Cart.Items.{
  Item, ItemType, sip, lumpsum, Scheme, PutInput, is_lumpsum, same_type, of_user, lumpsum_of,
  is_line, may_put, upsert, put_cart_item, remove_cart_item, get_cart, set_amount, take,
  too_many_lumpsums, cart_full, max_items, has_isin, is_removed,
}

pub record IsCart (items : List Item) : Type 0 where
  pub few : (user : ℕ) → count (of_user user) items ≤ 20
  pub few_lumpsums : (user : ℕ) → count (lumpsum_of user) items ≤ 10
  pub single : (user scheme : ℕ) (t : ItemType) → count (is_line user scheme t) items ≤ 1

count-append :
    (p : Item → Bool) (xs : List Item) (y : Item)
    → count p (xs ++ y ∷ []) ≡ count p xs + (if p y then 1 else 0)
count-append p [] y = ground arith
count-append p (x ∷ xs) y = ground (arith, count-append p xs y)

count-keep : (p q : Item → Bool) (xs : List Item) → count p (keep q xs) ≤ count p xs
count-keep p q [] = omega arith
count-keep p q (x ∷ xs) = ground (arith, count-keep p q xs)

-- What the guards leave room for.
record HasRoom (input : PutInput) (scheme : ℕ) (items : List Item) : Type 0 where
  room :
      any (is_line input.user scheme input.item_type) items ≡ false
      → count (of_user input.user) items ≤ 19
  lumpsum_room :
      any (is_line input.user scheme input.item_type) items ≡ false
      → is_lumpsum input.item_type ≡ true
      → count (lumpsum_of input.user) items ≤ 9

may_put-HasRoom :
    (input : PutInput) (s : Scheme) (items : List Item)
    → may_put input s items ≡ ok tt
    → HasRoom input s.id items
unfolding may_put
may_put-HasRoom input s items e =
    let (a, lumps) = step-ok _ (throw_if _ too_many_lumpsums) e in
    let (b, all) = step-ok _ (throw_if _ cart_full) a in
    let lumps' = throw_if-eq_ok _ too_many_lumpsums lumps in
    let all' = throw_if-eq_ok _ cart_full all in
    record { room = λ new. ground arith; lumpsum_room = λ new one. ground arith }

pub same_line :
    (u s u' s' : ℕ) (t t' : ItemType)
    → ((u == u') && ((s == s') && same_type t t')) ≡ true
    → (u ≡ u') × (s ≡ s') × (t ≡ t')
same_line u s u' s' sip sip h = ground (arith, ==_iff u u', ==_iff s s')
same_line u s u' s' lumpsum lumpsum h = ground (arith, ==_iff u u', ==_iff s s')
same_line u s u' s' sip lumpsum h = absurd (ground arith)
same_line u s u' s' lumpsum sip h = absurd (ground arith)

at_most : (a b : ℕ) (x : ℕ) → a ≡ b → b ≤ x → a ≤ x
at_most a b x e h = omega arith

one_more : (n m : ℕ) (b : Bool) → n ≤ suc m → (b ≡ true → n ≤ m) → n + (if b then 1 else 0) ≤ suc m
one_more n m b h k = ground arith

module _ (fresh : ℕ) (input : PutInput) (scheme : ℕ) (items : List Item) (h : IsCart items) where
  abbrev hit : Item → Bool
  hit i = is_line input.user scheme input.item_type i

  abbrev new : Item
  new = record {
    id = fresh;
    user = input.user;
    scheme = scheme;
    item_type = input.item_type;
    amount = input.amount;
  }

  changed : IsCart (update_where hit (set_amount input.amount) items)
  changed = record {
    few = λ u.
        at_most _ _ _
          (count-update_where (of_user u) hit (set_amount input.amount) items (λ x. refl))
          (h.few u);
    few_lumpsums = λ u.
        at_most _ _ _
          (count-update_where (lumpsum_of u) hit (set_amount input.amount) items (λ x. refl))
          (h.few_lumpsums u);
    single = λ u s t.
        at_most _ _ _
          (count-update_where (is_line u s t) hit (set_amount input.amount) items (λ x. refl))
          (h.single u s t);
  }

  only :
      any hit items ≡ false
      → (u s : ℕ) (t : ItemType) → is_line u s t new ≡ true
      → count (is_line u s t) items ≤ 0
  only fresh_line u s t same =
      let (a, b, c) = same_line input.user scheme u s input.item_type t same in
      let none_yet = any-eq_false hit items fresh_line in
      let moved : count (is_line u s t) items ≡ 0 =
        subst (λ x. count (is_line x s t) items ≡ 0) a
          (subst (λ x. count (is_line input.user x t) items ≡ 0) b
            (subst (λ x. count (is_line input.user scheme x) items ≡ 0) c none_yet)) in
      omega arith

  added : HasRoom input scheme items → any hit items ≡ false → IsCart (items ++ new ∷ [])
  added r fresh_line = record {
    few = λ u. at_most _ _ _ (count-append (of_user u) items new) (
        one_more _ 19 (of_user u new) (h.few u) (λ mine.
          subst (λ x. count (of_user x) items ≤ 19) ((==_iff input.user u).0 mine)
            (r.room fresh_line)));
    few_lumpsums = λ u. at_most _ _ _ (count-append (lumpsum_of u) items new) (
        one_more _ 9 (lumpsum_of u new) (h.few_lumpsums u) (λ mine.
          let (own, one) = parts (input.user == u) (is_lumpsum input.item_type) mine in
          subst (λ x. count (lumpsum_of x) items ≤ 9) ((==_iff input.user u).0 own)
            (r.lumpsum_room fresh_line one)));
    single = λ u s t.
        at_most _ _ _ (count-append (is_line u s t) items new)
          (one_more _ 0 (is_line u s t new) (h.single u s t) (only fresh_line u s t));
  }
    where
      parts : (a b : Bool) → (a && b) ≡ true → (a ≡ true) × (b ≡ true)
      parts a b e = ground arith

  upsert-IsCart : HasRoom input scheme items → IsCart (upsert fresh input scheme items)
  unfolding upsert
  upsert-IsCart r = elim (Bool-cases (any hit items)) [
    | inl already ↦ rw already changed
    | inr fresh_line ↦ rw fresh_line (added r fresh_line)
  ]

-- The writes of the cart.
pub data Step (schemes : List Scheme) (items : List Item) : List Item → Type 0 where
  put :
      (fresh : ℕ) (input : PutInput)
      → Step schemes items (put_cart_item schemes fresh input items).0
  remove : (user id : ℕ) → Step schemes items (remove_cart_item user id items).0

-- However lines are put and removed, every cart keeps to at most twenty lines, at most ten one-time
-- ones, and at most one line for a fund and type.
pub Step-IsCart :
    (schemes : List Scheme) {items items' : List Item}
    → Step schemes items items'
    → IsCart items
    → IsCart items'
unfolding put_cart_item remove_cart_item
Step-IsCart schemes {items} (put fresh input) h =
    elim (Option-cases (find (has_isin input.isin) schemes)) [
      | inl missing ↦ rw (put_cart_item, missing) h
      | inr (s, here) ↦ elim (Result-cases (may_put input s items)) [
        | inl (e, bad) ↦ rw (put_cart_item, here, bad) h
        | inr (done, fine) ↦
            rw (put_cart_item, here, fine)
              (upsert-IsCart fresh input s.id items h (may_put-HasRoom input s items fine))
      ]
    ]
Step-IsCart schemes {items} (remove user id) h = record {
  few = λ u.
      let fewer = count-keep (of_user u) (λ i. not (is_removed user id i)) items in
      let old = h.few u in omega arith;
  few_lumpsums = λ u.
      let fewer = count-keep (lumpsum_of u) (λ i. not (is_removed user id i)) items in
      let old = h.few_lumpsums u in omega arith;
  single = λ u s t.
      let fewer = count-keep (is_line u s t) (λ i. not (is_removed user id i)) items in
      let old = h.single u s t in omega arith;
}

length-count : (p : Item → Bool) (xs : List Item) → length (keep p xs) ≡ count p xs
length-count p [] = refl
length-count p (x ∷ xs) = ground (arith, length-count p xs)

take_all : (n : ℕ) (xs : List Item) → length xs ≤ n → take n xs ≡ xs
take_all zero [] h = refl
take_all zero (x ∷ xs) h = absurd (omega arith)
take_all (suc n) [] h = refl
take_all (suc n) (x ∷ xs) h = ap (λ l. x ∷ l) (take_all n xs (omega arith))

-- What an investor is shown is their whole cart: the limit on the lines that are read cuts nothing off.
pub get_cart-whole :
    (user : ℕ) (items : List Item)
    → IsCart items
    → (get_cart user items).items ≡ keep (of_user user) items
unfolding get_cart
get_cart-whole user items h =
    take_all max_items (keep (of_user user) items)
      (at_most _ _ _ (length-count (of_user user) items) (h.few user))
