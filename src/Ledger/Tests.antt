-- ===== src/Ledger/Tests.antt =====
-- Histories of the ledger, run, and the theorems at them.
use candle_mind.Ledger.Outbox.Recorded.{issued}
use candle_mind.Ledger.Once.{Arguments, completes, IsAccepted, complete_once}
use candle_mind.Base.{Option, refl, List, arith, [], some, ℕ, ◌∷◌, ◌≡◌, none, ◌≢◌}
use candle_mind.Base.Text.{codes, text_eq, text_ltb, strip, upper, lower}
use candle_mind.Base.Int.{pos}
use candle_mind.Base.Table.{find, update_where, select}
use candle_mind.Json.{dumps}
use candle_mind.Json.Value.{Fields, set_field}
use candle_mind.Ledger.Contracts.{
  Event, JobLane, JobState, Job, Error, ok, normalize_scope, is_symbol, is_network, bounded_text,
}
use candle_mind.Ledger.Rows.{
  Ledger, Env, empty, job_at, event_of, event_at, ◌>>=◌, transaction, fetch_job, fetch_event_of,
  fetch_event_at,
}
use candle_mind.Ledger.Enqueue.{
  json_object, normalize_reasons, id_or_uuid, job_with_key, insert_row, insert_job, merge_existing,
  reuse_job, place_job, enqueue_job, enqueue_market_job, insert_message, message_with_job,
  store_message, place_message, enqueue_inbox_message,
}
use candle_mind.Ledger.Lease.{
  recover_expired_leases, expire_leases, before, better, best, lanes_or_all, optional_scope,
  claimable, positive_ms, claim_row, claim_next, check_lease, require_running_lease, renew_lease,
  release_running_job, retry_job, fail_job,
}
use candle_mind.Ledger.Publish.{
  supersede_row, supersede_job, insert_event, complete_row, answer_completion, complete_in,
  complete_job, publish_row, mark_event_published,
}
use candle_mind.Ledger.Calls.{Call, perform, run}
use candle_mind.Ledger.Invariant.{IsValid}
use candle_mind.Ledger.Invariant.History.{empty-IsValid, run-IsValid}
use candle_mind.Ledger.Exclusive.{lease_exclusive}
use candle_mind.Ledger.Rollback.{perform_rolls_back}
use candle_mind.Ledger.Order.{Claims}
use candle_mind.Ledger.Order.Claim.{expired_ledger, claim_next-Claims}

abbrev at : ℕ → Env
at t = record { clock = t; uuid = codes "u" }

abbrev opening : List (Env × Call)
opening =
    (
      at 10,
      Call.enqueue_market (codes "testnet") (codes "btcusdt") (codes "bar:1") none
          (codes "bar" ∷ []) (pos 5) none (some (codes "j1")) none,
    )
    ∷ (at 20, Call.claim (codes "w1") (pos 1000) none none none none)
    ∷ []

abbrev first_job : Job
first_job = record {
  id = codes "j1";
  network = codes "testnet";
  symbol = codes "BTCUSDT";
  lane = JobLane.market;
  dedupe_key = codes "bar:1";
  state = JobState.running;
  priority = pos 5;
  payload_json = codes "{}";
  reasons = codes "bar" ∷ [];
  result_json = none;
  attempts = 1;
  available_at_ms = 10;
  lease_owner = some (codes "w1");
  lease_expires_at_ms = some 1020;
  error_code = none;
  created_at_ms = 10;
  updated_at_ms = 20;
  completed_at_ms = none;
}

-- Opened once for all runs.
running_code : Ledger → List (Env × Call) → Ledger
unfolding run perform enqueue_market_job enqueue_job normalize_scope is_symbol is_network
    bounded_text strip upper lower text_eq text_ltb json_object dumps normalize_reasons id_or_uuid
    job_with_key insert_row insert_job merge_existing reuse_job place_job job_at event_of event_at
    find update_where select ◌>>=◌ transaction fetch_job fetch_event_of fetch_event_at
    recover_expired_leases expire_leases before better best lanes_or_all optional_scope claimable
    positive_ms claim_row claim_next check_lease require_running_lease renew_lease
    release_running_job retry_job fail_job supersede_row supersede_job insert_event complete_row
    answer_completion complete_in complete_job publish_row mark_event_published insert_message
    message_with_job store_message place_message enqueue_inbox_message set_field
running_code s calls = run calls s

after_opening : (run opening empty).jobs ≡ first_job ∷ []
unfolding running_code
after_opening = refl

run-IsValid_example : IsValid (run opening empty)
run-IsValid_example = run-IsValid opening empty empty-IsValid

abbrev intrusions : List (Env × Call)
intrusions =
    (at 500, Call.recover none)
    ∷ (at 600, Call.claim (codes "w2") (pos 50) none none none none)
    ∷ (at 700, Call.fail (codes "j1") (codes "w2") (codes "boom") none)
    ∷ (at 800, Call.supersede (codes "j1") (codes "newer") none)
    ∷ []

other_worker : bounded_text (codes "w2") 128 ≢ ok (codes "w1")
unfolding running_code
other_worker h = ground (arith, h)

lease_exclusive_example : job_at (codes "j1") (run intrusions (run opening empty)) ≡ some first_job
unfolding running_code
lease_exclusive_example =
    lease_exclusive (codes "j1") (codes "w1") 1020 first_job intrusions (run opening empty)
      run-IsValid_example refl refl refl refl
      (tt, omega arith, (tt, omega arith, (other_worker, tt, (tt, tt, tt))))

perform_rolls_back_example :
    (perform
      (at 700)
      (Call.fail (codes "j1") (codes "w2") (codes "boom") none)
      (run opening empty)).1
    ≡ run opening empty
unfolding running_code
perform_rolls_back_example =
    perform_rolls_back (at 700) (Call.fail (codes "j1") (codes "w2") (codes "boom") none)
      (run opening empty) (run opening empty) Error.lease_error refl

claim_next-Claims_example :
    Claims
      (claimable 2000 (lanes_or_all none) none)
      (codes "w2")
      2050
      2000
      (expired_ledger 2000 (run opening empty))
      (claim_next (at 2000) (codes "w2") (pos 50) none none none none (run opening empty))
unfolding running_code
claim_next-Claims_example =
    claim_next-Claims (at 2000) (codes "w2") (pos 50) none none none none (run opening empty)
      run-IsValid_example refl refl refl

abbrev up : Arguments
up = record {
  worker_id = codes "w1";
  result = some Fields.end;
  event_type = codes "analysis";
  role = codes "assistant";
  content = codes "up";
  structured = none;
  reasons = none;
  now_ms = some 30;
}

-- Another worker, with another content.
abbrev down : Arguments
down = record up { worker_id = codes "w2"; content = codes "down"; now_ms = some 90 }

abbrev up_event : Event
up_event = record {
  sequence = 1;
  job_id = codes "j1";
  network = first_job.network;
  symbol = first_job.symbol;
  event_type = codes "analysis";
  role = codes "assistant";
  content = codes "up";
  structured_json = codes "{}";
  reasons = codes "bar" ∷ [];
  created_at_ms = 30;
  published_at_ms = none;
}

abbrev after_up : Ledger
after_up = (completes (at 30) (codes "j1") up (run opening empty)).1

up-completes : completes (at 30) (codes "j1") up (run opening empty) ≡ (ok up_event, after_up)
unfolding running_code
up-completes = refl

down-IsAccepted : IsAccepted down
unfolding running_code
down-IsAccepted = record {
  worker = (codes "w2", refl);
  event_type = (codes "analysis", refl);
  role = (codes "assistant", refl);
  content = (codes "down", refl);
  result = (codes "{}", refl);
  structured = (codes "{}", refl);
}

abbrev publication : List (Env × Call)
publication = (at 60, Call.publish 1 none) ∷ []

j1_bounded : bounded_text (codes "j1") 128 ≡ ok (codes "j1")
unfolding running_code
j1_bounded = refl

complete_once_example :
    (event_of (codes "j1") after_up ≡ some up_event)
    × (t : Option ℕ) × (completes (at 90) (codes "j1") down (run publication after_up)
        ≡ (ok (issued up_event t), run publication after_up))
complete_once_example =
    complete_once (at 30) (at 90) (codes "j1") (codes "j1") (codes "j1") up down (run opening empty)
      after_up up_event publication j1_bounded up-completes j1_bounded down-IsAccepted
