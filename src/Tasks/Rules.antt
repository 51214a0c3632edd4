-- ===== src/Tasks/Rules.antt =====
-- What a rule for the calls of Tasks/Calls says of the row before and after each of their updates.
use mathlib.Core.List.{Memᴰ, not-mem-nil}
use codex_threadhub.Base.{
  ℕ, ◌≡◌, ◌≢◌, ap, sym, ◌∙◌, All, All-Memᴰ, String, Bool, true, Option, List, [], ◌∷◌, or_else,
}
use codex_threadhub.States.Task.{TaskStatus, task_in, execution_terminals, running, agent_done}
use codex_threadhub.Retry.{Failure}
use codex_threadhub.Registry.{Validation, Metadata, Task}
use codex_threadhub.Tasks.Claim.{
  executing, in_turn, bindable, integrable, acceptable, Binding, beaten, bound, turned, agent_ended,
  under_validation, under_integration,
}
use codex_threadhub.Tasks.Complete.{TurnEnd, ended_row, ends_badly, completed_row}
use codex_threadhub.Tasks.Finish.{FailureOptions, failed_row}
use codex_threadhub.Tasks.Validate.{accepted_row, plain_options}
use codex_threadhub.Tasks.Wait.{waiting_row}
use codex_threadhub.Tasks.Calls.{Call}

-- The relation holds between the rows of two tables, place by place.
abbrev pub Rows : (Task → Task → Type 0) → List Task → List Task → Type 0
Rows R [] [] = Unit
Rows R (x ∷ xs) (y ∷ ys) = R x y × Rows R xs ys
Rows R _ _ = ⊥

-- The terminal status that a failure may ask for.
abbrev pub terminal_ok : FailureOptions → Bool
terminal_ok o = task_in execution_terminals (or_else o.terminal_status TaskStatus.failed)

abbrev pub call_ok : Call → Bool
call_ok (Call.fails_with f o) = terminal_ok o
call_ok (Call.fails e f s) = terminal_ok (plain_options s)
call_ok _ = true

pub record RowRules (hash : Validation → String) (R : Task → Task → Type 0) : Type 0 where
  pub same : (t : Task) → R t t
  pub binds :
      (b : Binding) (now : ℕ) (t : Task) → task_in bindable t.status ≡ true → R t (bound b now t)
  pub turns :
      (x : Option String) (now : ℕ) (t : Task)
      → task_in in_turn t.status ≡ true
      → R t (turned x now t)
  pub beats : (now : ℕ) (t : Task) → task_in executing t.status ≡ true → R t (beaten now t)
  pub ends :
      (o x : Option String) (now : ℕ) (t : Task)
      → task_in in_turn t.status ≡ true
      → R t (agent_ended o x now t)
  pub validates :
      (now : ℕ) (t : Task)
      → task_in (agent_done ∷ []) t.status ≡ true
      → R t (under_validation now t)
  pub integrates :
      (s : Option String) (m : Metadata) (now : ℕ) (t : Task)
      → task_in integrable t.status ≡ true
      → R t (under_integration s m now t)
  pub completes :
      (o x : Option String) (now : ℕ) (t : Task)
      → task_in bindable t.status ≡ true
      → R t (completed_row o x now t)
  pub ends_turn :
      (e : TurnEnd) (now : ℕ) (t : Task)
      → ends_badly e.status ≡ true
      → task_in in_turn t.status ≡ true
      → R t (ended_row e now t)
  pub fails :
      (f : Failure) (o : FailureOptions) (now : ℕ) (t : Task)
      → terminal_ok o ≡ true
      → task_in executing t.status ≡ true
      → R t (failed_row hash f o now t)
  pub accepts :
      (v : Option Validation) (now : ℕ) (task t : Task)
      → task_in acceptable t.status ≡ true
      → R t (accepted_row v now task t)
  pub waits :
      (since delay now : ℕ) (t : Task)
      → task_in (running ∷ []) t.status ≡ true
      → R t (waiting_row since delay now t)

-- The primary key of the table.
abbrev pub UniqueIds : List Task → Type 0
UniqueIds [] = Unit
UniqueIds (t ∷ ts) = All (λ x. x.id ≢ t.id) ts × UniqueIds ts

pub unique_row :
    (ts : List Task) {x y : Task} → UniqueIds ts → Memᴰ x ts → Memᴰ y ts → x.id ≡ y.id → x ≡ y
unique_row [] u m n e = absurd (not-mem-nil ∣ m ∣₁)
unique_row (t ∷ ts) u (Memᴰ.head p) (Memᴰ.head q) e = p ∙ sym q
unique_row (t ∷ ts) (u, us) (Memᴰ.head p) (Memᴰ.tail n) e =
    absurd (All-Memᴰ (λ z. z.id ≢ t.id) ts u n (sym e ∙ ap (λ z. z.id) p))
unique_row (t ∷ ts) (u, us) (Memᴰ.tail m) (Memᴰ.head q) e =
    absurd (All-Memᴰ (λ z. z.id ≢ t.id) ts u m (e ∙ ap (λ z. z.id) q))
unique_row (t ∷ ts) (u, us) (Memᴰ.tail m) (Memᴰ.tail n) e = unique_row ts us m n e
