-- ===== src/Runtime/Restart.antt =====
-- sar_adx_runtime.py: a process that starts from the file of one that stopped.
use candle_mind.Base.Text.{Text, text_eq_refl}
use candle_mind.Runtime.File.{state_document, store_load, Write}
use candle_mind.Runtime.Commits.{process_bars-Commits}
use candle_mind.Base.Result.{◌>>=◌, err, ok}
use candle_mind.Paper.Document.{from_dict, from_dict-to_dict, to_dict, validate}
use candle_mind.Base.Checked.{accepted}
use candle_mind.Paper.Broker.{PaperBroker}
use candle_mind.Runtime.Synced.{Sound, Synced, Commits}
use candle_mind.Runtime.Process.{
  time_text, time_from, restores, process_bars, fresh, RecoveryStatus, Step, Bars, Runtime, restore,
  Setting,
}
use candle_mind.Runtime.File.{Saved}
use candle_mind.Base.Floats.{Floats}
use candle_mind.Base.{◌∷◌, ◌∙◌, [], some, ◌≢◌, ap, ℕ, none, Option, refl, inr, inl, ◌≡◌, subst, sym}

module _ (R : Floats) (g : Setting R) where
  -- The file holds the runtime, and the broker is valid.
  abbrev pub IsKept : Runtime R → Type 0
  IsKept r = Synced R g r × Sound R g r

  -- The file of a write that failed after os.replace is not of the runtime.
  Commits-IsKept :
      (w : Write) (r : Runtime R) (k : Step R)
      → w ≢ Write.unsynced
      → Commits R g w r k
      → IsKept r
      → IsKept k.0
  unfolding Commits
  Commits-IsKept w r (after, err f) n (inl e) k = subst IsKept (sym e) k
  Commits-IsKept w r (after, err f) n (inr late) k = elim (n late.0) [ ]
  Commits-IsKept w r (after, ok fills) n (inl (e, idle)) k = subst IsKept (sym e) k
  Commits-IsKept w r (after, ok fills) n (inr (s, a, v)) k = (s, v k.1)

  -- pd.Timestamp reads what isoformat writes, which is not empty.
  pub record IsReadable : Type 0 where
    pub reads : (t : ℕ) → g.timestamp (g.isoformat t) ≡ some t
    pub written : (t : ℕ) → g.isoformat t ≢ []

  text_time :
      (t : ℕ) (text : Text)
      → text ≢ []
      → g.timestamp text ≡ some t
      → time_from R g (some text) ≡ ok (some t)
  text_time t [] n h = elim (n refl) [ ]
  text_time t (c ∷ cs) n h = rw h refl

  time_from-time_text : (o : Option ℕ) → IsReadable → time_from R g (time_text R g o) ≡ ok o
  time_from-time_text none h = refl
  time_from-time_text (some t) h = text_time t (g.isoformat t) (h.written t) (h.reads t)

  -- The runtime that `_restore` makes.
  abbrev pub restarted : Runtime R → Runtime R
  restarted r = record r { recovery_status = RecoveryStatus.recovered }

  restores-kept :
      (r empty : Runtime R)
      → IsReadable
      → r.stored ≡ empty.stored
      → from_dict R (to_dict R r.broker) ≡ accepted r.broker
      → restores R g empty (
          some (record {
            config_version = g.config_version;
            config_hash = g.config_hash;
            symbol = g.symbol;
            decision_time = time_text R g r.last_decision;
            execution_time = time_text R g r.last_execution;
            strategy = state_document r.state;
            broker = to_dict R r.broker;
          }))
        ≡ ok (restarted r)
  restores-kept r empty h e d =
      rw (d, time_from-time_text r.last_decision h, time_from-time_text r.last_execution h, e) refl

  loads-kept :
      (r : Runtime R)
      → Synced R g r
      → store_load R g.config_version g.symbol g.config_hash r.stored ≡ ok r.stored
  unfolding store_load
  loads-kept r s =
      rw (s, text_eq_refl g.config_version, text_eq_refl g.symbol, text_eq_refl g.config_hash) refl

  restore-kept :
      (r : Runtime R) (broker : PaperBroker R)
      → IsReadable
      → IsKept r
      → validate R r.broker ≡ none
      → restore R g (fresh R g broker r.stored) ≡ ok (restarted r)
  unfolding restore
  restore-kept r broker h k v =
      ap (λ o. o >>= λ payload. restores R g (fresh R g broker r.stored) payload) (loads-kept r k.0)
      ∙ subst
          (λ (x : Option (Saved R)). restores R g (fresh R g broker r.stored) x ≡ ok (restarted r))
          (sym k.0)
          (restores-kept r (fresh R g broker r.stored) h refl
            (from_dict-to_dict R r.broker k.1.decisions k.1.funding v))

  -- When pd.Timestamp reads what isoformat writes, which is not empty, the file held the runtime and
  -- the broker was valid before a call of `process_bars`, and the store does not fail after it has
  -- replaced the file, then after the call, even when it raised, a new process restores from the file
  -- the state, the broker and the times that the runtime has, whenever `_validate` accepts that broker.
  pub restore-process_bars :
      (r : Runtime R) (b : Bars R) (broker : PaperBroker R)
      → IsReadable
      → b.write ≢ Write.unsynced
      → IsKept r
      → validate R (process_bars R g r b).0.broker ≡ none
      → restore R g (fresh R g broker (process_bars R g r b).0.stored)
        ≡ ok (restarted (process_bars R g r b).0)
  restore-process_bars r b broker h n k v =
      restore-kept (process_bars R g r b).0 broker h
        (Commits-IsKept b.write r (process_bars R g r b) n (process_bars-Commits R g r b) k) v
