-- ===== src/Base/TextSet.antt =====
-- Python's `set` of strings, as the list of its members in their order (`sorted(s)`): the program
-- uses `in`, `add`, `len`, `set(list)` and `sorted`.
use candle_mind.Base.{
  not, all, ◌++◌, ◌∙◌, refl, ap, ◌&&◌, &&_split, arith, false, ◌||◌, [], if◌then◌else◌, true, ◌∷◌,
  ◌≡◌, Bool, List,
}
use candle_mind.Base.Text.{text_eq_sound, text_eq, text_ltb, Text}

pub text_ltb_total : (s t : Text) → text_ltb s t ≡ false → text_eq s t ≡ false → text_ltb t s ≡ true
unfolding text_ltb text_eq
text_ltb_total [] [] h k = cc
text_ltb_total [] (b ∷ t) h k = cc
text_ltb_total (a ∷ s) [] h k = refl
text_ltb_total (a ∷ s) (b ∷ t) h k = ground (arith, text_ltb_total s t)

-- `x in s`
unfoldable pub member : Text → List Text → Bool
member x [] = false
member x (y ∷ s) = text_eq x y || member x s

-- `s.add(x)`
unfoldable pub insert : Text → List Text → List Text
insert x [] = x ∷ []
insert x (y ∷ s) =
    let rest = insert x s in
    if text_ltb x y then x ∷ y ∷ s else if text_eq x y then y ∷ s else y ∷ rest

-- `set(l)`
unfoldable pub set_of : List Text → List Text
unfolding insert
set_of [] = []
set_of (x ∷ l) = insert x (set_of l)

abbrev pub precedes : Text → List Text → Bool
precedes x [] = true
precedes x (y ∷ s) = text_ltb x y

-- In order, without duplicates.
abbrev pub ascending : List Text → Bool
ascending [] = true
ascending (x ∷ s) = precedes x s && ascending s

pub member-insert : (x y : Text) (s : List Text) → member x (insert y s) ≡ text_eq x y || member x s
unfolding member insert
member-insert x y [] = refl
member-insert x y (z ∷ s) = ground (arith, member-insert x y s, text_eq_sound y z)

precedes-insert :
    (y x : Text) (s : List Text)
    → text_ltb y x ≡ true
    → precedes y s ≡ true
    → precedes y (insert x s) ≡ true
unfolding insert
precedes-insert y x [] h k = h
precedes-insert y x (z ∷ s) h k = ground arith

pub ascending-insert :
    (x : Text) (s : List Text) → ascending s ≡ true → ascending (insert x s) ≡ true
unfolding insert
ascending-insert x [] h = refl
ascending-insert x (y ∷ s) h =
    ground (arith, ascending-insert x s, precedes-insert y x s, text_ltb_total x y)

insert-first : (x : Text) (s : List Text) → precedes x s ≡ true → insert x s ≡ x ∷ s
unfolding insert
insert-first x [] h = refl
insert-first x (y ∷ s) h = ground arith

-- The set of the members in their order is the set.
pub set_of-ascending : (s : List Text) → ascending s ≡ true → set_of s ≡ s
unfolding set_of
set_of-ascending [] h = refl
set_of-ascending (x ∷ s) h =
    let parts = &&_split (precedes x s) (ascending s) h in
    ap (insert x) (set_of-ascending s parts.1) ∙ insert-first x s parts.0

-- A list without duplicates.
abbrev pub distinct : List Text → Bool
distinct [] = true
distinct (x ∷ l) = not (member x l) && distinct l

pub distinct-one : (x : Text) → distinct (x ∷ []) ≡ true
unfolding member
distinct-one x = refl

not-member :
    (x : Text) (s l : List Text)
    → member x s ≡ true
    → all (λ y. not (member y s)) l ≡ true
    → member x l ≡ false
unfolding member
not-member x s [] h k = refl
not-member x s (y ∷ l) h k = ground (arith, not-member x s l, text_eq_sound x y)

member-append : (x : Text) (l k : List Text) → member x (l ++ k) ≡ member x l || member x k
unfolding member
member-append x [] k = refl
member-append x (y ∷ l) k = ground (arith, member-append x l k)

-- Members of a set, then texts that are not in it.
pub distinct-append :
    (s l k : List Text)
    → distinct l ≡ true
    → distinct k ≡ true
    → all (λ x. member x s) l ≡ true
    → all (λ x. not (member x s)) k ≡ true
    → distinct (l ++ k) ≡ true
distinct-append s [] k dl dk h n = dk
distinct-append s (x ∷ l) k dl dk h n =
    ground (arith, distinct-append s l k, member-append x l k, not-member x s k)

pub ascending-set_of : (l : List Text) → ascending (set_of l) ≡ true
unfolding set_of
ascending-set_of [] = refl
ascending-set_of (x ∷ l) = ascending-insert x (set_of l) (ascending-set_of l)
