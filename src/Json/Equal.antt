-- ===== src/Json/Equal.antt =====
-- `==` of two JSON values in Python: numbers by their value (True is 1), objects without their order.
use candle_mind.Base.Text.{text_eq}
use candle_mind.Json.{Items, pos, Json, int_text}
use candle_mind.Base.{none, ◌&&◌, ◌==◌, if◌then◌else◌, false, true, some, Bool, suc, ℕ, Option}
use candle_mind.Json.Decimal.{number, Decimal, decimal_eq, decimal_of_text}
use candle_mind.Json.Value.{get_field, Fields}

as_number : Json → Option Decimal
unfolding decimal_of_text int_text
as_number (Json.bool b) = some (number false (if b then 1 else 0) (pos 0))
as_number (Json.int n) = decimal_of_text (int_text n)
as_number (Json.float t) = decimal_of_text t
as_number _ = none

numeric_eq : Option Decimal → Option Decimal → Bool
unfolding decimal_eq
numeric_eq (some a) (some b) = decimal_eq a b
numeric_eq _ _ = false

count_fields : Fields → ℕ
count_fields Fields.end = 0
count_fields (Fields.field k v fs) = suc (count_fields fs)

unfoldable mutual
  unfolding as_number numeric_eq count_fields get_field text_eq

  pub json_eq : Json → Json → Bool
  json_eq Json.null Json.null = true
  json_eq (Json.str s) (Json.str t) = text_eq s t
  json_eq (Json.arr xs) (Json.arr ys) = items_eq xs ys
  json_eq (Json.obj fs) (Json.obj gs) = count_fields fs == count_fields gs && fields_in fs gs
  json_eq x y = numeric_eq (as_number x) (as_number y)

  items_eq : Items → Items → Bool
  items_eq Items.nil Items.nil = true
  items_eq (Items.cons x xs) (Items.cons y ys) = json_eq x y && items_eq xs ys
  items_eq _ _ = false

  fields_in : Fields → Fields → Bool
  fields_in Fields.end gs = true
  fields_in (Fields.field k v fs) gs =
      elim (get_field k gs) [ none ↦ false | some w ↦ json_eq v w ] && fields_in fs gs
