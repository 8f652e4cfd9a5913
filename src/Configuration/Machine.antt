-- ===== src/Configuration/Machine.antt =====
-- The state machine of a configuration version:
-- backend/app/domain/configuration/state_machine.py.
use hotelops_ai.Prelude.{
  ◌≡◌, refl, Bool, true, false, not, ◌&&◌, Option, none, some, List, [], ◌∷◌, is_some,
  if◌then◌else◌, Result, ok, err, ◌>>◌, reject, ensure, is_ok,
}

pub data ConfigurationStatus : Type 0 where
  draft validating validated published : ConfigurationStatus

-- The operations, named by strings in the source.
pub data Operation : Type 0 where
  edit start_validation validation_succeeded validation_failed publish_version : Operation

pub data StateError : Type 0 where
  transition_error :
      (current : ConfigurationStatus) (attempted : Operation) (allowed : List Operation)
      → StateError
  immutable_error : StateError

-- `_LEGAL_TRANSITIONS`, and `get_next_state`
unfoldable pub get_next_state : ConfigurationStatus → Operation → Option ConfigurationStatus
get_next_state draft edit = some draft
get_next_state draft start_validation = some validating
get_next_state validating validation_succeeded = some validated
get_next_state validating validation_failed = some draft
get_next_state validated publish_version = some published
get_next_state _ _ = none

unfoldable pub get_allowed_operations : ConfigurationStatus → List Operation
get_allowed_operations draft = edit ∷ start_validation ∷ []
get_allowed_operations validating = validation_succeeded ∷ validation_failed ∷ []
get_allowed_operations validated = publish_version ∷ []
get_allowed_operations published = []

unfoldable pub can_transition : ConfigurationStatus → Operation → Bool
can_transition current operation = is_some (get_next_state current operation)

abbrev pub is_published : ConfigurationStatus → Bool
is_published published = true
is_published _ = false

abbrev pub is_validated : ConfigurationStatus → Bool
is_validated validated = true
is_validated _ = false

abbrev pub is_validating : ConfigurationStatus → Bool
is_validating validating = true
is_validating _ = false

abbrev pub is_draft : ConfigurationStatus → Bool
is_draft draft = true
is_draft _ = false

abbrev is_publish : Operation → Bool
is_publish publish_version = true
is_publish _ = false

unfoldable pub is_mutable : ConfigurationStatus → Bool
is_mutable state = not (is_published state)

unfoldable pub is_terminal : ConfigurationStatus → Bool
is_terminal state = is_published state

abbrev or_refused :
    ConfigurationStatus
    → Operation
    → Option ConfigurationStatus
    → Result StateError ConfigurationStatus
or_refused current operation none =
    err (transition_error current operation (get_allowed_operations current))
or_refused current operation (some next) = ok next

-- The new state of the result; a result that is returned is always a success.
unfoldable pub transition :
    ConfigurationStatus → Operation → Bool → Result StateError ConfigurationStatus
transition current operation allow_idempotent =
    if allow_idempotent && (is_publish operation && is_published current)
    then ok current
    else or_refused current operation (get_next_state current operation)

unfoldable pub assert_can_edit : ConfigurationStatus → Result StateError (Unit {0})
assert_can_edit state =
    ensure (is_mutable state) immutable_error
    >> reject (is_validating state)
        (transition_error state edit (validation_succeeded ∷ validation_failed ∷ []))
    >> reject (is_validated state) (transition_error state edit (publish_version ∷ []))

unfoldable pub assert_can_validate : ConfigurationStatus → Result StateError (Unit {0})
assert_can_validate state =
    ensure (is_draft state) (transition_error state start_validation (get_allowed_operations state))

unfoldable pub assert_can_publish : ConfigurationStatus → Result StateError (Unit {0})
assert_can_publish state =
    ensure (is_validated state)
      (transition_error state publish_version (get_allowed_operations state))

-- The three assertions that the service makes allow exactly what the table allows, and a state
-- without an allowed operation is the terminal one, which is the one that is not mutable.
pub assertions-agree :
    (state : ConfigurationStatus)
    → (is_ok (assert_can_edit state) ≡ can_transition state edit)
      × (is_ok (assert_can_validate state) ≡ can_transition state start_validation)
      × (is_ok (assert_can_publish state) ≡ can_transition state publish_version)
      × (is_terminal state ≡ not (is_mutable state))
unfolding assert_can_edit assert_can_validate assert_can_publish can_transition get_next_state
    is_terminal is_mutable
assertions-agree draft = (refl, refl, refl, refl)
assertions-agree validating = (refl, refl, refl, refl)
assertions-agree validated = (refl, refl, refl, refl)
assertions-agree published = (refl, refl, refl, refl)
