-- ===== src/Runtime/Tests.antt =====
-- sar_adx_runtime.py: a runtime on whole numbers that stand for floats, and its theorems at a call
-- that opens a position. Documents of brokers are not compared there.
use candle_mind.Runtime.File.{is_json, store_save, Write}
use candle_mind.Base.{Option, suc, ◌≢◌}
use candle_mind.Paper.Calls.{IsValid}
use candle_mind.Runtime.Restart.{IsReadable, restarted, restore-process_bars}
use candle_mind.Pyramid.Transition.{
  stepped, regime_entries, entry_aligned, run_of, capacity, entry_ready, may_enter, reversed,
  decide, check_arguments, transition_sar_pyramid,
}
use candle_mind.Base.TextSet.{member, insert}
use candle_mind.Paper.Document.{validate}
use candle_mind.Base.Result.{ok}
use candle_mind.Runtime.Actions.{act, run_actions, settle_rows}
use candle_mind.Runtime.Commits.{process_bars-Commits}
use candle_mind.Base.Text.{Text, is_space, lstrip, strip, text_ltb, text_eq, codes}
use candle_mind.Pyramid.Config.{adx_timedelta, validate_config, initial_state}
use candle_mind.Runtime.Tape.{signal_of, TapeRow, locate}
use candle_mind.Base.Int.{negsuc, ℤ, pos}
use candle_mind.Runtime.Synced.{Commits}
use candle_mind.Base.{refl, ◌+◌, true, ◌∷◌, none, some, ◌≡◌, Bool, false, [], ℕ}
use candle_mind.Runtime.Process.{
  document, RecoveryStatus, execute_at, fresh, Bars, Runtime, process_bars, Setting, restore,
}
use candle_mind.Paper.Broker.{
  is_zero, is_price, add_entry, filled_in, open_priced, open_position, snapshot, settle_funding,
  PaperBroker,
}
use candle_mind.Pyramid.Sample.{hour, config, whole}

-- A time is written as one code point.
abbrev code_point : Text → Option ℕ
code_point (suc t ∷ []) = some t
code_point _ = none

abbrev setting : Setting whole
setting = record {
  config = config;
  config_version = codes "v3";
  config_hash = codes "h";
  symbol = codes "BTCUSDT";
  timedelta = hour;
  isoformat = λ t. suc t ∷ [];
  timestamp = code_point;
  same_document = λ x y. true;
}

abbrev flat : PaperBroker whole
flat = record {
  cash = pos 10000;
  realized_pnl = pos 0;
  fees = pos 0;
  funding_pnl = pos 0;
  position = record { direction = pos 0; layer_quantity = pos 0; entries = [] };
  processed_decisions = [];
  paper_fill_count_complete = true;
  processed_funding = [];
}

abbrev row : ℕ → ℤ → Bool → TapeRow whole
row open_time direction reversal = record {
  open_time = open_time;
  close_time = open_time + 299999;
  open_price = pos 100;
  close = pos 100;
  sar_direction = direction;
  sar_reversal = reversal;
  trend_direction = pos 1;
  entry_trend_direction = pos 1;
}

-- The second row reverses to long, and is decided at the open of the third.
abbrev bars : Bars whole
bars = record {
  tape = row 0 (negsuc 0) false ∷ row 300000 (pos 1) true ∷ row 600000 (pos 1) false ∷ [];
  cutoff = 600100;
  funding = record { funding_time = 600000; funding_rate = pos 1 } ∷ [];
  execution_price = none;
  eligible = true;
  allow_flat_rebaseline = false;
  write = Write.written;
}

abbrev runtime : Runtime whole
runtime = record {
  state = initial_state;
  broker = flat;
  last_decision = some 299999;
  last_execution = none;
  recovery_status = RecoveryStatus.ready;
  stored = some (document whole setting initial_state flat 299999 none);
}

abbrev opened_runtime : Runtime whole
opened_runtime = (process_bars whole setting runtime bars).0

opens_test : opened_runtime.broker.position.direction ≡ pos 1
unfolding process_bars store_save is_json locate execute_at settle_rows settle_funding run_actions
    act signal_of snapshot open_position open_priced filled_in add_entry is_price is_zero text_eq
    insert member text_ltb transition_sar_pyramid validate_config check_arguments decide reversed
    may_enter entry_ready capacity run_of entry_aligned regime_entries stepped adx_timedelta strip
    lstrip is_space
opens_test = refl

-- The directory of the file cannot be synced: the file is ahead of the runtime.
ahead_test :
    (process_bars whole setting runtime (record bars { write = Write.unsynced })).0.broker ≡ flat
unfolding process_bars store_save is_json locate execute_at settle_rows settle_funding run_actions
    act signal_of snapshot open_position open_priced filled_in add_entry is_price is_zero text_eq
    insert member text_ltb transition_sar_pyramid validate_config check_arguments decide reversed
    may_enter entry_ready capacity run_of entry_aligned regime_entries stepped adx_timedelta strip
    lstrip is_space
ahead_test = refl

process_bars-Commits_example :
    Commits whole setting Write.written runtime (process_bars whole setting runtime bars)
process_bars-Commits_example = process_bars-Commits whole setting runtime bars

setting-IsReadable : IsReadable whole setting
setting-IsReadable = record { reads = λ t. refl; written = λ t h. cc }

writes : Write.written ≢ Write.unsynced
writes h = cc

flat-IsValid : IsValid whole hour config flat
flat-IsValid = record { placed = refl; decisions = refl; funding = refl }

opened_accepted : validate whole opened_runtime.broker ≡ none
unfolding process_bars store_save is_json locate execute_at settle_rows settle_funding run_actions
    act signal_of snapshot open_position open_priced filled_in add_entry is_price is_zero text_eq
    insert member text_ltb transition_sar_pyramid validate_config check_arguments decide reversed
    may_enter entry_ready capacity run_of entry_aligned regime_entries stepped adx_timedelta strip
    lstrip is_space validate
opened_accepted = refl

restore-process_bars_example :
    restore whole setting (fresh whole setting flat opened_runtime.stored)
    ≡ ok (restarted whole setting opened_runtime)
restore-process_bars_example =
    restore-process_bars whole setting runtime bars flat setting-IsReadable writes
      (refl, flat-IsValid) opened_accepted
