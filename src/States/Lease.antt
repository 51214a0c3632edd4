-- ===== src/States/Lease.antt =====
-- The Lease states of src/domain-states.js.
use codex_threadhub.Base.{ℕ, String, ◌≡◌, refl, Bool, List, [], ◌∷◌, some, Result}
use codex_threadhub.States.Machine.{
  Machine, Options, StateError, get_elem?, has, same, move, transition,
}

pub data LeaseStatus : Type 0 where
  active released expired : LeaseStatus

abbrev pub lease_statuses : List LeaseStatus
lease_statuses = active ∷ released ∷ expired ∷ []

abbrev pub lease_spelling : LeaseStatus → String
lease_spelling active = "active"
lease_spelling released = "released"
lease_spelling expired = "expired"

abbrev pub lease_code : LeaseStatus → ℕ
lease_code active = 0
lease_code released = 1
lease_code expired = 2

abbrev pub lease_moves : LeaseStatus → List LeaseStatus
lease_moves active = released ∷ expired ∷ []
lease_moves released = active ∷ []
lease_moves expired = active ∷ released ∷ []

pub lease_listed : (s : LeaseStatus) → get_elem? lease_statuses (lease_code s) ≡ some s
lease_listed active = refl
lease_listed _ = refl

abbrev pub lease_machine : Machine LeaseStatus
lease_machine = record {
  entity = "Lease";
  label = "Lease";
  statuses = lease_statuses;
  spelling = lease_spelling;
  code = lease_code;
  moves = lease_moves;
  listed = lease_listed;
}

abbrev pub terminal_leases : List LeaseStatus
terminal_leases = released ∷ expired ∷ []

abbrev pub is_lease : LeaseStatus → LeaseStatus → Bool
is_lease = same lease_machine

abbrev pub lease_in : List LeaseStatus → LeaseStatus → Bool
lease_in = has lease_machine

unfoldable pub transition_lease : String → String → Options → Result StateError LeaseStatus
unfolding transition
transition_lease = transition lease_machine

unfoldable pub move_lease : LeaseStatus → LeaseStatus → Options → Result StateError LeaseStatus
unfolding move
move_lease = move lease_machine
