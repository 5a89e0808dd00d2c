-- ===== src/Json/Value.antt =====
-- JSON values as Python holds them after `json.loads`; an object's members are in insertion order.
use candle_mind.Base.{Bool, Option, none, some, if◌then◌else◌}
use candle_mind.Base.Text.{Text, text_eq}
use candle_mind.Base.Int.{ℤ}

mutual
  pub data Json : Type 0 where
    null : Json
    bool : Bool → Json
    int : ℤ → Json
    float : Text → Json
    str : Text → Json
    arr : Items → Json
    obj : Fields → Json

  pub data Items : Type 0 where
    nil : Items
    cons : Json → Items → Items

  pub data Fields : Type 0 where
    end : Fields
    field : Text → Json → Fields → Fields

-- `d.get(key)`
unfoldable pub get_field : Text → Fields → Option Json
unfolding text_eq
get_field k Fields.end = none
get_field k (Fields.field j v fs) = if text_eq j k then some v else get_field k fs

-- `d[key] = value`
unfoldable pub set_field : Text → Json → Fields → Fields
unfolding text_eq
set_field k v Fields.end = Fields.field k v Fields.end
set_field k v (Fields.field j w fs) =
    if text_eq j k then Fields.field j v fs else Fields.field j w (set_field k v fs)
