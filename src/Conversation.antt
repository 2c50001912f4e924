-- ===== src/Conversation.antt =====
-- src/humanflow/domain/conversation.py: the states of a conversation and the tokens of its
-- asynchronous operations.
use humanflow.Shared.{
  ℕ, String, ◌≡◌, refl, Bool, List, [], ◌∷◌, if◌then◌else◌, Eq, ◌==◌, nat_instance, string_instance,
  index_eq, index_eq_iff, ℤ, pos, ltb_ℤ, int_instance,
}
use humanflow.Shared.Text.{is_blank}
use humanflow.Shared.Result.{Result, Error, value_error, checked}

pub data ConversationState : Type 0 where
  idle listening possible_end_of_turn thinking speaking possible_interruption : ConversationState
  interrupted overlap tool_wait recovering handoff disconnecting failed : ConversationState

abbrev pub state_index : ConversationState → ℕ
state_index idle = 0
state_index listening = 1
state_index possible_end_of_turn = 2
state_index thinking = 3
state_index speaking = 4
state_index possible_interruption = 5
state_index interrupted = 6
state_index overlap = 7
state_index tool_wait = 8
state_index recovering = 9
state_index handoff = 10
state_index disconnecting = 11
state_index failed = 12

abbrev pub state_at : ℕ → ConversationState
state_at n =
    if n == 0
    then idle
    else if n == 1
    then listening
    else if n == 2
    then possible_end_of_turn
    else if n == 3
    then thinking
    else if n == 4
    then speaking
    else if n == 5
    then possible_interruption
    else if n == 6
    then interrupted
    else if n == 7
    then overlap
    else if n == 8
    then tool_wait
    else if n == 9
    then recovering
    else if n == 10
    then handoff
    else if n == 11
    then disconnecting
    else failed

pub state_at-state_index : (s : ConversationState) → state_at (state_index s) ≡ s
state_at-state_index idle = refl
state_at-state_index _ = refl

instance abbrev pub state_instance : Eq ConversationState
state_instance = record {
  same = index_eq state_index state_at state_at-state_index;
  same_iff = index_eq_iff state_index state_at state_at-state_index;
}

-- The text of the enumeration's member.
unfoldable pub state_value : ConversationState → String
state_value idle = "IDLE"
state_value listening = "LISTENING"
state_value possible_end_of_turn = "POSSIBLE_END_OF_TURN"
state_value thinking = "THINKING"
state_value speaking = "SPEAKING"
state_value possible_interruption = "POSSIBLE_INTERRUPTION"
state_value interrupted = "INTERRUPTED"
state_value overlap = "OVERLAP"
state_value tool_wait = "TOOL_WAIT"
state_value recovering = "RECOVERING"
state_value handoff = "HANDOFF"
state_value disconnecting = "DISCONNECTING"
state_value failed = "FAILED"

pub record OperationToken : Type 0 where
  pub conversation_id : String
  pub epoch : ℤ
  pub operation_id : String
  pub kind : String

abbrev pub token_checks : OperationToken → List (Bool × Error)
token_checks t =
    (is_blank t.conversation_id, value_error "conversation_id must not be empty")
    ∷ (ltb_ℤ t.epoch (pos 0), value_error "epoch must be non-negative")
    ∷ (is_blank t.operation_id, value_error "operation_id must not be empty")
    ∷ (is_blank t.kind, value_error "kind must not be empty")
    ∷ []

-- `OperationToken.__post_init__`: the constructed token, or the exception.
unfoldable pub make_token : OperationToken → Result OperationToken
make_token t = checked (token_checks t) t
