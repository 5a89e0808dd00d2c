-- ===== src/Runtime/File.antt =====
-- sar_adx_runtime.py and sar_adx_state_store.py: the document of a runtime, and the store's `save` and
-- `load` of it. A hash is not empty. The
-- constant keys, `updated_at` and the parsing of JSON text are left out.
use candle_mind.Base.Scalar.{float_value, Scalar}
use candle_mind.Paper.Broker.{PaperEntry}
use candle_mind.Paper.Document.{PaperDocument, PositionDocument}
use candle_mind.Runtime.Actions.{RuntimeFault}
use candle_mind.Pyramid.Config.{initial_state, SarPyramidState}
use candle_mind.Base.Int.{ℤ}
use candle_mind.Base.Floats.{Floats}
use candle_mind.Base.{
  true, none, Option, ℕ, some, Bool, [], ◌∷◌, ◌&&◌, List, all, get_or, if◌then◌else◌,
}
use candle_mind.Base.Result.{ok, err, Result}
use candle_mind.Base.Text.{text_eq, Text}

-- The document of a state: a key may be missing, and other keys may be there.
pub record StateDocument : Type 0 where
  pub aligned_run : Option ℕ
  pub aligned_run_direction : Option ℤ
  pub regime_direction : Option ℤ
  pub regime_entry_count : Option ℕ
  pub armed : Option Bool
  pub rejected_add_count : Option ℕ
  pub other_keys : List Text

-- `asdict(state)`
abbrev pub state_document : SarPyramidState → StateDocument
state_document s = record {
  aligned_run = some s.aligned_run;
  aligned_run_direction = some s.aligned_run_direction;
  regime_direction = some s.regime_direction;
  regime_entry_count = some s.regime_entry_count;
  armed = some s.armed;
  rejected_add_count = some s.rejected_add_count;
  other_keys = [];
}

abbrev pub state_with : StateDocument → List Text → Result RuntimeFault SarPyramidState
state_with d [] = ok (record {
  aligned_run = get_or d.aligned_run initial_state.aligned_run;
  aligned_run_direction = get_or d.aligned_run_direction initial_state.aligned_run_direction;
  regime_direction = get_or d.regime_direction initial_state.regime_direction;
  regime_entry_count = get_or d.regime_entry_count initial_state.regime_entry_count;
  armed = get_or d.armed initial_state.armed;
  rejected_add_count = get_or d.rejected_add_count initial_state.rejected_add_count;
})
state_with d (k ∷ keys) = err RuntimeFault.runtime_error

-- `SarPyramidState(**payload["strategy"])`, whose TypeError `_restore` turns into its own error.
abbrev pub state_from : StateDocument → Result RuntimeFault SarPyramidState
state_from d = state_with d d.other_keys

-- How a write ends: done, failed before os.replace, or failed after it, where the directory is synced.
pub data Write : Type 0 where
  written unwritten unsynced : Write

module _ (R : Floats) where
  pub record Saved : Type 0 where
    pub config_version : Text
    pub config_hash : Text
    pub symbol : Text
    pub decision_time : Option Text
    pub execution_time : Option Text
    pub strategy : StateDocument
    pub broker : PaperDocument R

  abbrev pub finite_scalar : Scalar R → Bool
  finite_scalar (float_value x) = R.is_finite x
  finite_scalar _ = true

  abbrev pub finite_value : Option (Scalar R) → Bool
  finite_value none = true
  finite_value (some x) = finite_scalar x

  abbrev pub finite_entry : PaperEntry R → Bool
  finite_entry e = R.is_finite e.price && R.is_finite e.quantity

  abbrev pub finite_position : Option (PositionDocument R) → Bool
  finite_position none = true
  finite_position (some p) =
      finite_value p.direction
      && finite_value p.layer_quantity
      && all finite_entry (get_or p.entries [])

  -- json.dumps with allow_nan=False does not raise.
  unfoldable pub is_json : PaperDocument R → Bool
  is_json d =
      finite_value d.cash
      && finite_value d.realized_pnl
      && finite_value d.fees
      && finite_value d.funding_pnl
      && finite_position d.position

  abbrev pub replaces : Write → Option Saved → Saved → Option Saved × Result RuntimeFault Unit
  replaces written file d = (some d, ok tt)
  replaces unwritten file d = (file, err RuntimeFault.state_error)
  replaces unsynced file d = (some d, err RuntimeFault.state_error)

  -- `SarAdxStateStore.save`: the file, and whether it raises.
  unfoldable pub store_save : Write → Option Saved → Saved → Option Saved × Result RuntimeFault Unit
  unfolding is_json
  store_save w file d =
      if is_json d.broker then replaces w file d else (file, err RuntimeFault.value_error)

  abbrev pub loads_file : Text → Text → Text → Option Saved → Result RuntimeFault (Option Saved)
  loads_file version symbol hash none = ok none
  loads_file version symbol hash (some d) =
      if text_eq d.config_version version && text_eq d.symbol symbol && text_eq d.config_hash hash
      then ok (some d)
      else err RuntimeFault.state_error

  -- `SarAdxStateStore.load`
  unfoldable pub store_load : Text → Text → Text → Option Saved → Result RuntimeFault (Option Saved)
  unfolding text_eq
  store_load version symbol hash file = loads_file version symbol hash file
