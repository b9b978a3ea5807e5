-- ===== src/Cart/Lines.antt =====
-- The cart as a map from funds and types to amounts.
use backend_new.Basics.{
  ℕ, ◌≡◌, refl, sym, ap, ◌∙◌, subst, inl, inr, Bool, true, false, ◌&&◌, Option, none, some, List,
  [], ◌∷◌, ◌++◌, ◌==◌, ==_refl, find, any, find_sound, find_of_any, find-update_where,
  find-update_other, if◌then◌else◌, Option-cases, Bool-cases, arith,
}
use backend_new.Cart.Items.{
  Item, ItemType, sip, lumpsum, PutInput, same_type, is_line, upsert, set_amount,
}
use backend_new.Cart.Bounds.{same_line}

-- What the map has at a key: the line's own key, and its amount.
pub record Entry : Type 0 where
  pub id : ℕ
  pub amount : ℕ

abbrev pub Map : Type 0
Map = ℕ → ℕ → ItemType → Option Entry

abbrev pub entry_of : Option Item → Option Entry
entry_of none = none
entry_of (some i) = some (record { id = i.id; amount = i.amount })

abbrev pub view : List Item → Map
view items user scheme t = entry_of (find (is_line user scheme t) items)

-- A new amount under the key that was there, if one was.
abbrev pub with_amount : ℕ → ℕ → Option Entry → Option Entry
with_amount fresh amount none = some (record { id = fresh; amount = amount })
with_amount fresh amount (some e) = some (record e { amount = amount })

abbrev pub same_key : ℕ → ℕ → ItemType → ℕ → ℕ → ItemType → Bool
same_key u s t user scheme kind = (u == user) && ((s == scheme) && same_type t kind)

abbrev pub put_at : ℕ → ℕ → ItemType → (fresh amount : ℕ) → Map → Map
put_at u s t fresh amount m user scheme kind =
    if same_key u s t user scheme kind
    then with_amount fresh amount (m user scheme kind)
    else m user scheme kind

abbrev pub unless_id : ℕ → Option Entry → Option Entry
unless_id id none = none
unless_id id (some e) = if e.id == id then none else some e

abbrev pub remove_at : ℕ → ℕ → Map → Map
remove_at u id m user scheme kind =
    if user == u then unless_id id (m user scheme kind) else m user scheme kind

same_key_refl : (u s : ℕ) (t : ItemType) → same_key u s t u s t ≡ true
same_key_refl u s sip = rw (==_refl u, ==_refl s)
same_key_refl u s lumpsum = rw (==_refl u, ==_refl s)

one_line :
    (u s u' s' : ℕ) (t t' : ItemType) (i : Item)
    → same_key u s t u' s' t' ≡ false
    → is_line u' s' t' i ≡ true
    → is_line u s t i ≡ false
one_line u s u' s' t t' i other here = elim (Bool-cases (is_line u s t i)) [
  | inr miss ↦ miss
  | inl both ↦
      let (a, b, c) = same_line i.user i.scheme u' s' i.item_type t' here in
      let (a', b', c') = same_line i.user i.scheme u s i.item_type t both in
      let bad = same_key_refl u s t in
      let bad' = subst (λ x. same_key u s t x s t ≡ true) (sym a' ∙ a) bad in
      let bad'' = subst (λ x. same_key u s t u' x t ≡ true) (sym b' ∙ b) bad' in
      let end = subst (λ x. same_key u s t u' s' x ≡ true) (sym c' ∙ c) bad'' in absurd (cc)
]

find_last :
    (p : Item → Bool) (xs : List Item) (y : Item)
    → find p xs ≡ none
    → find p (xs ++ y ∷ []) ≡ (if p y then some y else none)
find_last p [] y e = refl
find_last p (x ∷ xs) y e = elim (Bool-cases (p x)) [
  | inl here ↦ absurd (let bad = rw here at e in cc)
  | inr other ↦ rw other (find_last p xs y (rw other at e))
]

find_before :
    (p : Item → Bool) (xs : List Item) (y a : Item)
    → find p xs ≡ some a
    → find p (xs ++ y ∷ []) ≡ some a
find_before p [] y a e = absurd (cc)
find_before p (x ∷ xs) y a e = elim (Bool-cases (p x)) [
  | inl here ↦ rw here (rw here at e)
  | inr other ↦ rw other (find_before p xs y a (rw other at e))
]

none_found : (p : Item → Bool) (xs : List Item) → any p xs ≡ false → find p xs ≡ none
none_found p [] e = refl
none_found p (x ∷ xs) e = ground (arith, none_found p xs)

module _ (fresh : ℕ) (input : PutInput) (scheme : ℕ) (items : List Item) where
  abbrev hit : Item → Bool
  hit i = is_line input.user scheme input.item_type i

  abbrev new : Item
  new = record {
    id = fresh;
    user = input.user;
    scheme = scheme;
    item_type = input.item_type;
    amount = input.amount;
  }

  at_hit :
      view (upsert fresh input scheme items) input.user scheme input.item_type
      ≡ with_amount fresh input.amount (view items input.user scheme input.item_type)
  unfolding upsert
  at_hit = elim (Bool-cases (any hit items)) [
    | inl already ↦
        let (i, here) = find_of_any hit items already in
        let there =
          find-update_where hit hit (set_amount input.amount) items i (find_sound hit items i here)
            (λ x. refl) here in
        rw already
          (ap entry_of there ∙ ap (λ o. with_amount fresh input.amount (entry_of o)) (sym here))
    | inr fresh_line ↦
        let gone = none_found hit items fresh_line in
        let last = find_last hit items new gone in
        rw fresh_line (
          ap entry_of (
            last
            ∙ ap (λ b. if b then some new else none)
                (same_key_refl input.user scheme input.item_type))
          ∙ ap (λ o. with_amount fresh input.amount (entry_of o)) (sym gone))
  ]

  at_other :
      (user s : ℕ) (t : ItemType)
      → same_key input.user scheme input.item_type user s t ≡ false
      → view (upsert fresh input scheme items) user s t ≡ view items user s t
  unfolding upsert
  at_other user s t other = elim (Bool-cases (any hit items)) [
    | inl already ↦ rw already (
        ap entry_of (
          find-update_other hit (is_line user s t) (set_amount input.amount) items
            (λ i here. one_line input.user scheme user s input.item_type t i other here)
            (λ x. refl)))
    | inr fresh_line ↦ rw fresh_line (elim (Option-cases (find (is_line user s t) items)) [
      | inl gone ↦ ap entry_of (
          find_last (is_line user s t) items new gone
          ∙ ap (λ b. if b then some new else none) other
          ∙ sym gone)
      | inr (i, here) ↦ ap entry_of (find_before (is_line user s t) items new i here ∙ sym here)
    ])
  ]

  pub upsert-view :
      (user s : ℕ) (t : ItemType)
      → view (upsert fresh input scheme items) user s t
        ≡ put_at input.user scheme input.item_type fresh input.amount (view items) user s t
  upsert-view user s t = elim (Bool-cases (same_key input.user scheme input.item_type user s t)) [
    | inr other ↦ rw other (at_other user s t other)
    | inl same ↦
        let (a, b, c) = same_line input.user scheme user s input.item_type t same in
        let m = with_amount fresh input.amount in
        rw same (
          subst (λ x. view (upsert fresh input scheme items) x s t ≡ m (view items x s t)) a
            (subst
              (λ x.
                view (upsert fresh input scheme items) input.user x t
                ≡ m (view items input.user x t))
              b
              (subst
                (λ x.
                  view (upsert fresh input scheme items) input.user scheme x
                  ≡ m (view items input.user scheme x))
                c at_hit)))
  ]
