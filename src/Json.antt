-- ===== src/Json.antt =====
-- The JSON values that the stores keep, with `json.dumps` as the stores call it.
-- A `float` is the text of its `repr`, so a float that is not a number is "nan", "inf" or "-inf".
pub mod Value
pub mod Decimal
pub mod Equal
use Value.{Json, Items, Fields}
use candle_mind.Base.{
  ℕ, zero, suc, ◌+◌, ◌-◌, ◌/◌, ◌%◌, ◌*◌, Bool, true, false, ◌||◌, Option, none, some, List, [], ◌∷◌,
  ◌++◌, leb, ltb, ◌==◌, if◌then◌else◌, ◌&&◌, ◌≡◌, refl,
}
use candle_mind.Base.Text.{Text, codes, text_eq, text_ltb}
use candle_mind.Base.Int.{ℤ, pos, negsuc}

-- Decimal digits; `n + 1` rounds are enough, since each divides by ten.
digits_from : ℕ → ℕ → Text → Text
digits_from zero n acc = acc
digits_from (suc fuel) n acc =
    let rest = digits_from fuel (n / 10) ((48 + n % 10) ∷ acc) in
    if ltb n 10 then (48 + n) ∷ acc else rest

-- `str(n)` of an integer.
unfoldable pub nat_text : ℕ → Text
unfolding digits_from
nat_text n = digits_from (suc n) n []

unfoldable pub int_text : ℤ → Text
unfolding nat_text
int_text (pos n) = nat_text n
int_text (negsuc n) = b'-' ∷ nat_text (suc n)

unfoldable pub is_finite_repr : Text → Bool
unfolding text_eq
is_finite_repr t =
    if text_eq t (codes "nan") || text_eq t (codes "inf") || text_eq t (codes "-inf")
    then false
    else true

hex_digit : ℕ → ℕ
hex_digit d = if ltb d 10 then 48 + d else 87 + d

unicode_escape : ℕ → Text
unfolding hex_digit
unicode_escape c =
    b'\\'
    ∷ b'u'
    ∷ hex_digit (c / 4096 % 16)
    ∷ hex_digit (c / 256 % 16)
    ∷ hex_digit (c / 16 % 16)
    ∷ hex_digit (c % 16)
    ∷ []

-- One character under `ensure_ascii=True`; above 0xffff it is a surrogate pair.
escape : ℕ → Text
unfolding unicode_escape
escape c =
    if c == 34
    then b'\\' ∷ 34 ∷ []
    else if c == 92
    then b'\\' ∷ b'\\' ∷ []
    else if c == 10
    then b'\\' ∷ b'n' ∷ []
    else if c == 13
    then b'\\' ∷ b'r' ∷ []
    else if c == 9
    then b'\\' ∷ b't' ∷ []
    else if c == 12
    then b'\\' ∷ b'f' ∷ []
    else if c == 8
    then b'\\' ∷ b'b' ∷ []
    else if leb 32 c && leb c 126
    then c ∷ []
    else if leb c 65535
    then unicode_escape c
    else unicode_escape (55296 + (c - 65536) / 1024) ++ unicode_escape (56320 + (c - 65536) % 1024)

escape_all : Text → Text
unfolding escape
escape_all [] = []
escape_all (c ∷ s) = escape c ++ escape_all s

quote : Text → Text
unfolding escape_all
quote s = 34 ∷ (escape_all s ++ 34 ∷ [])

-- `sort_keys=True`
insert_member : Text × Text → List (Text × Text) → List (Text × Text)
unfolding text_ltb
insert_member m [] = m ∷ []
insert_member m (n ∷ l) = if text_ltb m.0 n.0 then m ∷ n ∷ l else n ∷ insert_member m l

sort_members : List (Text × Text) → List (Text × Text)
unfolding insert_member
sort_members [] = []
sort_members (m ∷ l) = insert_member m (sort_members l)

-- `separators=(",", ":")`
join_members : List (Text × Text) → Text
unfolding quote
join_members [] = []
join_members (m ∷ []) = quote m.0 ++ (b':' ∷ m.1)
join_members (m ∷ n ∷ l) = quote m.0 ++ (b':' ∷ (m.1 ++ (b',' ∷ join_members (n ∷ l))))

join_items : List Text → Text
join_items [] = []
join_items (t ∷ []) = t
join_items (t ∷ u ∷ l) = t ++ (b',' ∷ join_items (u ∷ l))

wrap_items : Option (List Text) → Option Text
unfolding join_items
wrap_items none = none
wrap_items (some l) = some (b'[' ∷ (join_items l ++ b']' ∷ []))

wrap_members : Option (List (Text × Text)) → Option Text
unfolding sort_members join_members
wrap_members none = none
wrap_members (some l) = some (b'{' ∷ (join_members (sort_members l) ++ b'}' ∷ []))

cons? : {A : Type 0} → Option A → Option (List A) → Option (List A)
cons? (some a) (some l) = some (a ∷ l)
cons? _ _ = none

member? : Text → Option Text → Option (Text × Text)
member? k none = none
member? k (some t) = some (k, t)

unfoldable mutual
  unfolding int_text is_finite_repr quote wrap_items wrap_members cons? member?

  -- `json.dumps(value, ensure_ascii=True, allow_nan=False, sort_keys=True, separators=(",", ":"))`;
  -- `none` is the ValueError for a number that is not finite.
  pub dumps : Json → Option Text
  dumps Json.null = some (codes "null")
  dumps (Json.bool true) = some (codes "true")
  dumps (Json.bool false) = some (codes "false")
  dumps (Json.int n) = some (int_text n)
  dumps (Json.float t) = if is_finite_repr t then some t else none
  dumps (Json.str s) = some (quote s)
  dumps (Json.arr xs) = wrap_items (dumps_items xs)
  dumps (Json.obj fs) = wrap_members (dumps_fields fs)

  pub dumps_items : Items → Option (List Text)
  dumps_items Items.nil = some []
  dumps_items (Items.cons x xs) = cons? (dumps x) (dumps_items xs)

  pub dumps_fields : Fields → Option (List (Text × Text))
  dumps_fields Fields.end = some []
  dumps_fields (Fields.field k v fs) = cons? (member? k (dumps v)) (dumps_fields fs)

dumps_test :
    dumps (
      Json.obj (
        Fields.field (codes "b") (Json.int (negsuc 11)) (
          Fields.field
            (codes "a")
            (Json.arr (Items.cons (Json.str (codes "x\"é")) Items.nil))
            Fields.end)))
    ≡ some (codes "{\"a\":[\"x\\\"\\u00e9\"],\"b\":-12}")
unfolding dumps
dumps_test = refl
