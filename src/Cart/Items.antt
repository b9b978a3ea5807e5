-- ===== src/Cart/Items.antt =====
-- The lines of a cart: `getCart`, `putCartItem` and `removeCartItem`. Amounts are in paise.
use backend_new.Basics.{
  ℕ, zero, suc, ◌+◌, Bool, true, false, not, ◌&&◌, none, some, List, [], ◌∷◌, ◌++◌, leb, ◌==◌, find,
  any, keep, count, update_where, if◌then◌else◌, Result, ok, err, ◌>>◌, throw_if,
}

pub data ItemType : Type 0 where
  sip lumpsum : ItemType

abbrev pub is_sip : ItemType → Bool
is_sip sip = true
is_sip lumpsum = false

abbrev pub is_lumpsum : ItemType → Bool
is_lumpsum t = not (is_sip t)

abbrev pub same_type : ItemType → ItemType → Bool
same_type sip sip = true
same_type lumpsum lumpsum = true
same_type _ _ = false

pub record Scheme : Type 0 where
  pub id : ℕ
  pub isin : ℕ
  pub is_active : Bool
  pub purchase_allowed : Bool
  pub sip_allowed : Bool

-- A line of a cart; the rows are in the order in which they were made.
pub record Item : Type 0 where
  pub id : ℕ
  pub user : ℕ
  pub scheme : ℕ
  pub item_type : ItemType
  pub amount : ℕ

pub record PutInput : Type 0 where
  pub user : ℕ
  pub isin : ℕ
  pub item_type : ItemType
  pub amount : ℕ

pub data Refusal : Type 0 where
  no_such_fund no_sips closed cart_full too_many_lumpsums : Refusal

pub record CartDto : Type 0 where
  pub items : List Item
  pub sip_monthly : ℕ
  pub lumpsum_total : ℕ

abbrev pub max_items : ℕ
max_items = 20

abbrev pub max_lumpsums : ℕ
max_lumpsums = 10

abbrev pub of_user : ℕ → Item → Bool
of_user user i = i.user == user

abbrev pub lumpsum_of : ℕ → Item → Bool
lumpsum_of user i = (i.user == user) && is_lumpsum i.item_type

-- The line of a fund and type, the unique key of the table.
abbrev pub is_line : ℕ → ℕ → ItemType → Item → Bool
is_line user scheme item_type i =
    (i.user == user) && ((i.scheme == scheme) && same_type i.item_type item_type)

abbrev pub take : ℕ → List Item → List Item
take zero xs = []
take (suc n) [] = []
take (suc n) (x ∷ xs) = x ∷ take n xs

abbrev pub sum : List Item → ℕ
sum [] = 0
sum (i ∷ is) = i.amount + sum is

unfoldable pub get_cart : ℕ → List Item → CartDto
get_cart user items =
    let rows = take max_items (keep (of_user user) items) in
    record {
      items = rows;
      sip_monthly = sum (keep (λ i. is_sip i.item_type) rows);
      lumpsum_total = sum (keep (λ i. is_lumpsum i.item_type) rows);
    }

unfoldable pub may_put : PutInput → Scheme → List Item → Result Refusal (Unit {0})
may_put input s items =
    let already = any (is_line input.user s.id input.item_type) items in
    throw_if (not s.is_active) no_such_fund
    >> throw_if (is_sip input.item_type && not s.sip_allowed) no_sips
    >> throw_if (is_lumpsum input.item_type && not s.purchase_allowed) closed
    >> throw_if (not already && leb max_items (count (of_user input.user) items)) cart_full
    >> throw_if
        (not already
          && (is_lumpsum input.item_type && leb max_lumpsums (count (lumpsum_of input.user) items)))
        too_many_lumpsums

abbrev pub set_amount : ℕ → Item → Item
set_amount amount i = record i { amount = amount }

-- `upsert` on the unique key
unfoldable pub upsert : (fresh : ℕ) → PutInput → ℕ → List Item → List Item
upsert fresh input scheme items =
    if any (is_line input.user scheme input.item_type) items
    then update_where (is_line input.user scheme input.item_type) (set_amount input.amount) items
    else items
      ++ record {
        id = fresh;
        user = input.user;
        scheme = scheme;
        item_type = input.item_type;
        amount = input.amount;
      }
        ∷ []

abbrev pub has_isin : ℕ → Scheme → Bool
has_isin isin s = s.isin == isin

unfoldable pub put_cart_item :
    List Scheme → (fresh : ℕ) → PutInput → List Item → List Item × Result Refusal CartDto
put_cart_item schemes fresh input items = elim (find (has_isin input.isin) schemes) [
  | none ↦ (items, err no_such_fund)
  | some s ↦ elim (may_put input s items) [
    | err e ↦ (items, err e)
    | ok done ↦
        (upsert fresh input s.id items, ok (get_cart input.user (upsert fresh input s.id items)))
  ]
]

abbrev pub is_removed : ℕ → ℕ → Item → Bool
is_removed user id i = (i.id == id) && (i.user == user)

unfoldable pub remove_cart_item : ℕ → ℕ → List Item → List Item × CartDto
remove_cart_item user id items =
    let rest = keep (λ i. not (is_removed user id i)) items in (rest, get_cart user rest)
