-- ===== src/Cart/Refined.antt =====
-- The operations of the rows are those of the map.
use backend_new.Basics.{
  ℕ, ◌≡◌, refl, ap, ◌∙◌, inl, inr, Bool, not, Option, none, some, List, [], ◌∷◌, ◌==◌, find, keep,
  count, find_sound, if◌then◌else◌, ok, err, Result-cases, Option-cases, Bool-cases, arith, ◌≤◌,
}
use backend_new.Cart.Items.{
  Item, ItemType, Scheme, PutInput, Refusal, CartDto, is_line, may_put, put_cart_item,
  remove_cart_item, has_isin, is_removed,
}
use backend_new.Cart.Bounds.{same_line, IsCart}
use backend_new.Cart.Lines.{entry_of, view, put_at, unless_id, remove_at, upsert-view}

-- What a filter leaves of the only match.
abbrev filtered : (Item → Bool) → Option Item → Option Item
filtered q none = none
filtered q (some i) = if q i then some i else none

unfound : (p : Item → Bool) (xs : List Item) → count p xs ≡ 0 → find p xs ≡ none
unfound p [] e = refl
unfound p (x ∷ xs) e = elim (Bool-cases (p x)) [
  | inl here ↦ absurd (let bad = rw here at e in omega arith)
  | inr other ↦ rw other (unfound p xs (rw other at e))
]

found_left :
    (p q : Item → Bool) (xs : List Item)
    → count p xs ≤ 1
    → find p (keep q xs) ≡ filtered q (find p xs)
found_left p q [] few = refl
found_left p q (x ∷ xs) few = elim (Bool-cases (p x)) [
  | inl here ↦ elim (Bool-cases (q x)) [
    | inl kept ↦ rw (here, kept, here)
    | inr cut ↦
        let rest : count p xs ≡ 0 = let few' = rw here at few in omega arith in
        let gone = unfound p xs rest in
        rw (here, cut) (found_left p q xs (omega arith) ∙ ap (filtered q) gone)
  ]
  | inr other ↦ elim (Bool-cases (q x)) [
    | inl kept ↦ rw (other, kept, other) (found_left p q xs (rw other at few))
    | inr cut ↦ rw (other, cut) (found_left p q xs (rw other at few))
  ]
]

left :
    (user id u : ℕ) (o : Option Item)
    → ((i : Item) → o ≡ some i → i.user ≡ u)
    → entry_of (filtered (λ i. not (is_removed user id i)) o)
      ≡ (if u == user then unless_id id (entry_of o) else entry_of o)
left user id u none k = elim (Bool-cases (u == user)) [ inl own ↦ rw own | inr other ↦ rw other ]
left user id u (some i) k =
    let same = ap (λ x. x == user) (k i refl) in
    elim (Bool-cases (u == user)) [
      | inr other ↦ elim (Bool-cases (i.id == id)) [
        | inl hit ↦ rw (other, hit, same, other)
        | inr miss ↦ rw (other, miss)
      ]
      | inl own ↦ elim (Bool-cases (i.id == id)) [
        | inl hit ↦ rw (own, hit, same, own)
        | inr miss ↦ rw (own, miss)
      ]
    ]

removed-view :
    (user id : ℕ) (items : List Item) (u s : ℕ) (t : ItemType)
    → IsCart items
    → view (keep (λ i. not (is_removed user id i)) items) u s t
      ≡ remove_at user id (view items) u s t
removed-view user id items u s t h =
    ap entry_of
      (found_left (is_line u s t) (λ i. not (is_removed user id i)) items (h.single u s t))
    ∙ left user id u (find (is_line u s t) items) (λ i here.
      (same_line i.user i.scheme u s i.item_type t (find_sound (is_line u s t) items i here)).0)

-- The operations of the rows are those of the map.
pub record Refines (schemes : List Scheme) (items : List Item) : Type 0 where
  pub put :
      (fresh : ℕ) (input : PutInput) (dto : CartDto)
      → (put_cart_item schemes fresh input items).1 ≡ ok dto
      → (fund : Scheme) × (find (has_isin input.isin) schemes ≡ some fund)
        × ((u s : ℕ) (t : ItemType)
            → view (put_cart_item schemes fresh input items).0 u s t
              ≡ put_at input.user fund.id input.item_type fresh input.amount (view items) u s t)
  pub put_fails :
      (fresh : ℕ) (input : PutInput) (e : Refusal)
      → (put_cart_item schemes fresh input items).1 ≡ err e
      → (put_cart_item schemes fresh input items).0 ≡ items
  pub remove :
      (user id u s : ℕ) (t : ItemType)
      → view (remove_cart_item user id items).0 u s t ≡ remove_at user id (view items) u s t

put-refines :
    (schemes : List Scheme) (items : List Item) (fresh : ℕ) (input : PutInput) (dto : CartDto)
    → (put_cart_item schemes fresh input items).1 ≡ ok dto
    → (fund : Scheme) × (find (has_isin input.isin) schemes ≡ some fund)
      × ((u s : ℕ) (t : ItemType)
          → view (put_cart_item schemes fresh input items).0 u s t
            ≡ put_at input.user fund.id input.item_type fresh input.amount (view items) u s t)
unfolding put_cart_item
put-refines schemes items fresh input dto e =
    elim (Option-cases (find (has_isin input.isin) schemes)) [
      | inl missing ↦ absurd (let bad = rw (missing, put_cart_item) at e in cc)
      | inr (fund, here) ↦ elim (Result-cases (may_put input fund items)) [
        | inl (x, bad) ↦ absurd (let no_way = rw (here, put_cart_item, bad) at e in cc)
        | inr (done, fine) ↦ (
          fund,
          here,
          λ u s t. rw (here, put_cart_item, fine) (upsert-view fresh input fund.id items u s t),
        )
      ]
    ]

put_fails-refines :
    (schemes : List Scheme) (items : List Item) (fresh : ℕ) (input : PutInput) (e : Refusal)
    → (put_cart_item schemes fresh input items).1 ≡ err e
    → (put_cart_item schemes fresh input items).0 ≡ items
unfolding put_cart_item
put_fails-refines schemes items fresh input e h =
    elim (Option-cases (find (has_isin input.isin) schemes)) [
      | inl missing ↦ rw (missing, put_cart_item)
      | inr (fund, here) ↦ elim (Result-cases (may_put input fund items)) [
        | inl (x, bad) ↦ rw (here, put_cart_item, bad)
        | inr (done, fine) ↦ absurd (let no_way = rw (here, put_cart_item, fine) at h in cc)
      ]
    ]

-- The rows of a cart stand for a map: a put that succeeds sets the amount at its fund and type and
-- nowhere else, one that fails changes nothing, and a removal takes out the caller's line of that key.
pub cart-Refines :
    (schemes : List Scheme) (items : List Item) → IsCart items → Refines schemes items
unfolding remove_cart_item
cart-Refines schemes items h = record {
  put = put-refines schemes items;
  put_fails = put_fails-refines schemes items;
  remove = λ user id u s t. removed-view user id items u s t h;
}
