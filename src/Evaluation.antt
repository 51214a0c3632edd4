-- ===== src/Evaluation.antt =====
-- src/completion-evaluator.js: the verdict on a task by the evidence of its turn. The assessment of
-- the result (src/failure-classifier.js) and the commands of the turn are inputs, and the texts of
-- causes and the digests that `finalize` adds are left out.
pub mod Inputs
pub mod Ledgers
pub mod Judgement
pub mod Settled
pub mod Accepted
pub mod Tests
