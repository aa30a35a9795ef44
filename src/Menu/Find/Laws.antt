-- ===== src/Menu/Find/Laws.antt =====
-- `find_item` finds the first item of that name, from the first root on and each item before its
-- children.
use developer_dashboard.Common.{
  ◌≡◌, ◌∙◌, refl, arith, sym, Bool, Bool-cases, inl, inr, List, [], ◌∷◌, ◌++◌, Option, none, some,
  Bytes, equal, if◌then◌else◌,
}
use developer_dashboard.Menu.{ItemState, Item, item, Forest, leaf, child}
use developer_dashboard.Menu.Find.{
  Pointer, next_sibling, or_else, first_child, find_item_rec, find_in_children, find_item, item_at,
  at_pointer,
}

-- Every item with its subtree, each before its children.
unfoldable mutual
  pub preorder : Item → List Item
  preorder (item s children) = item s children ∷ all_items children

  pub all_items : Forest → List Item
  all_items leaf = []
  all_items (child i rest) = preorder i ++ all_items rest

abbrev pub is_named : Bytes → Item → Bool
is_named name (item s children) = equal s.name name

abbrev pub first_named : Bytes → List Item → Option Item
first_named name [] = none
first_named name (i ∷ rest) = if is_named name i then some i else first_named name rest

first_named-append :
    (name : Bytes) (x : Item) (xs ys : List Item)
    → first_named name xs ≡ some x
    → first_named name (xs ++ ys) ≡ some x
first_named-append name x (i ∷ xs) ys h = ground (arith, h, first_named-append name x xs ys)
first_named-append name x [] ys h = ground (arith, h)

first_named-append-none :
    (name : Bytes) (xs ys : List Item)
    → first_named name xs ≡ none
    → first_named name (xs ++ ys) ≡ first_named name ys
first_named-append-none name [] ys h = refl
first_named-append-none name (i ∷ xs) ys h = ground (arith, h, first_named-append-none name xs ys)

-- A pointer, if any, leads to the item, if any.
abbrev Agree : Option Pointer → (Pointer → Option Item) → Option Item → Type 0
Agree none at r = r ≡ none
Agree (some p) at r = (x : Item) × (at p ≡ some x) × (r ≡ some x)

abbrev from_roots : Forest → Pointer → Option Item
from_roots l p = at_pointer (some p) l

child-Agree :
    (name : Bytes) (i : Item) (rest : Forest) (a b : Option Pointer)
    → Agree a (λ p. item_at p i) (first_named name (preorder i))
    → Agree b (from_roots rest) (first_named name (all_items rest))
    → Agree
        (or_else (first_child a) (next_sibling b))
        (from_roots (child i rest))
        (first_named name (preorder i ++ all_items rest))
unfolding at_pointer item_at
child-Agree name i rest (some p) b (x, e, f) h =
    (x, e, first_named-append name x (preorder i) (all_items rest) f)
child-Agree name i rest none none g h =
    first_named-append-none name (preorder i) (all_items rest) g ∙ h
child-Agree name i rest none (some (n ∷ p)) g (x, e, f) =
    (x, e, first_named-append-none name (preorder i) (all_items rest) g ∙ f)
child-Agree name i rest none (some []) g (x, e, f) = absurd (ground (arith, e))

own-Agree :
    (name : Bytes) (s : ItemState) (children : Forest) (b : Option Pointer)
    → Agree b (from_roots children) (first_named name (all_items children))
    → Agree
        (if equal s.name name then some [] else b)
        (λ p. item_at p (item s children))
        (first_named name (item s children ∷ all_items children))
unfolding at_pointer item_at
own-Agree name s children b h = elim (Bool-cases (equal s.name name)) [
  | inl same ↦ rw same (item s children, refl, refl)
  | inr other ↦ rw other (below b h)
]
  where
    below :
        (b : Option Pointer)
        → Agree b (from_roots children) (first_named name (all_items children))
        → Agree b (λ p. item_at p (item s children)) (first_named name (all_items children))
    below none h = h
    below (some []) (x, e, f) = absurd (ground (arith, e))
    below (some (n ∷ p)) (x, e, f) = (x, e, f)

mutual
  unfolding find_item_rec preorder

  find_item_rec-Agree :
      (name : Bytes) (i : Item)
      → Agree (find_item_rec name i) (λ p. item_at p i) (first_named name (preorder i))
  find_item_rec-Agree name (item s children) =
      own-Agree name s children (find_in_children name children)
        (find_in_children-Agree name children)

  find_in_children-Agree :
      (name : Bytes) (l : Forest)
      → Agree (find_in_children name l) (from_roots l) (first_named name (all_items l))
  find_in_children-Agree name leaf = refl
  find_in_children-Agree name (child i rest) =
      child-Agree name i rest (find_item_rec name i) (find_in_children name rest)
        (find_item_rec-Agree name i) (find_in_children-Agree name rest)

-- What `find_item` points to is the first item, in preorder, that has the name; it is NULL where no
-- item has it.
pub at_pointer-find_item :
    (name : Bytes) (roots : Forest)
    → at_pointer (find_item name roots) roots ≡ first_named name (all_items roots)
unfolding find_item at_pointer
at_pointer-find_item name roots =
    agreed (find_in_children name roots) (find_in_children-Agree name roots)
  where
    agreed :
        (o : Option Pointer)
        → Agree o (from_roots roots) (first_named name (all_items roots))
        → at_pointer o roots ≡ first_named name (all_items roots)
    agreed none h = sym h
    agreed (some p) (x, e, f) = e ∙ sym f
