-- ===== src/Queue/Tests.antt =====
-- A run of the project queue, and instances of its theorems.
use Prim.Native.String
use codex_threadhub.Base.{ℕ, ◌≡◌, refl, arith, String, none, some, List, [], ◌∷◌}
use codex_threadhub.Base.Table.{update_where, returned}
use codex_threadhub.Queue.{
  queued, Item, QueueInput, claim_project_preparation, recover_project_queue, first,
  enqueue_project_preparation, leased_item,
}
use codex_threadhub.Queue.OneLease.{IsValid}
use codex_threadhub.Queue.Calls.{
  QueueCall, run_queue, run_queue_call, run_queue-IsValid, Leased, claim_project_preparation-Leased,
}

abbrev prefix : String → String
prefix run = String.◌++◌ "queue_" run

abbrev input_of : String → String → QueueInput
input_of run key = record {
  id = none;
  run_id = some run;
  project_key = some key;
  cwd = none;
  max_attempts = none;
  payload = none;
}

-- Two Runs of one project and one of another.
abbrev three_runs : List QueueCall
three_runs =
    QueueCall.enqueues (input_of "r1" "p") 1
    ∷ QueueCall.enqueues (input_of "r2" "p") 2
    ∷ QueueCall.enqueues (input_of "r3" "q") 3
    ∷ []

abbrev row_of : ℕ → String → String → String → ℕ → Item
row_of n id run key at = record {
  id = id;
  project_key = key;
  run_id = run;
  cwd = key;
  status = queued;
  sequence = n;
  lease_owner = none;
  lease_token = none;
  lease_expires_at = none;
  attempt = 0;
  max_attempts = 3;
  not_before = none;
  last_error = none;
  payload = "{}";
  created_at = at;
  updated_at = at;
}

abbrev three_rows : List Item
three_rows =
    row_of 3 "queue_r3" "r3" "q" 3
    ∷ row_of 2 "queue_r2" "r2" "p" 2
    ∷ row_of 1 "queue_r1" "r1" "p" 1
    ∷ []

enqueues_three : run_queue prefix three_runs [] ≡ three_rows
unfolding run_queue run_queue_call enqueue_project_preparation
enqueues_three = refl

abbrev first_lease : Item
first_lease = leased_item "w" "k" 10 100 (row_of 1 "queue_r1" "r1" "p" 1)

claims_first : (claim_project_preparation "w" "k" 10 100 three_rows).1 ≡ some first_lease
unfolding claim_project_preparation first recover_project_queue update_where returned
claims_first = refl

empty-IsValid : IsValid []
empty-IsValid = ((λ id. omega arith), (λ key. omega arith))

run_queue-IsValid_example : IsValid (
    run_queue prefix
      (QueueCall.claims "w" "k" 10 100 ∷ QueueCall.claims "v" "l" 11 100 ∷ [])
      (run_queue prefix three_runs []))
run_queue-IsValid_example =
    run_queue-IsValid prefix
      (QueueCall.claims "w" "k" 10 100 ∷ QueueCall.claims "v" "l" 11 100 ∷ [])
      (run_queue prefix three_runs []) (run_queue-IsValid prefix three_runs [] empty-IsValid)

three-IsValid : IsValid three_rows
unfolding run_queue run_queue_call enqueue_project_preparation
three-IsValid = run_queue-IsValid prefix three_runs [] empty-IsValid

claim_project_preparation-Leased_example :
    (q : Item) × Leased
      (recover_project_queue 10 three_rows)
      (claim_project_preparation "w" "k" 10 100 three_rows).0
      "w"
      "k"
      10
      100
      q
      first_lease
claim_project_preparation-Leased_example =
    claim_project_preparation-Leased "w" "k" 10 100 three_rows three-IsValid claims_first
