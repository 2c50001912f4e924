-- ===== src/Controller/Graph.antt =====
-- `ALLOWED_TRANSITIONS` of src/humanflow/controller/state_machine.py, and paths through it.
use humanflow.Shared.{
  ◌≡◌, refl, Bool, true, false, List, [], ◌∷◌, nat_instance, string_instance, contains,
  int_instance,
}
use humanflow.Conversation.{
  ConversationState, idle, listening, possible_end_of_turn, thinking, speaking,
  possible_interruption, interrupted, overlap, tool_wait, recovering, handoff, disconnecting,
  failed, state_instance,
}

unfoldable pub allowed_transitions : ConversationState → List ConversationState
allowed_transitions idle = listening ∷ disconnecting ∷ failed ∷ []
allowed_transitions listening =
    possible_end_of_turn ∷ thinking ∷ overlap ∷ disconnecting ∷ failed ∷ []
allowed_transitions possible_end_of_turn = listening ∷ thinking ∷ disconnecting ∷ failed ∷ []
allowed_transitions thinking =
    speaking ∷ tool_wait ∷ listening ∷ interrupted ∷ recovering ∷ disconnecting ∷ failed ∷ []
allowed_transitions speaking =
    possible_interruption ∷ interrupted ∷ overlap ∷ listening ∷ recovering ∷ disconnecting ∷ failed
    ∷ []
allowed_transitions possible_interruption =
    speaking ∷ interrupted ∷ overlap ∷ disconnecting ∷ failed ∷ []
allowed_transitions interrupted =
    listening ∷ thinking ∷ overlap ∷ recovering ∷ disconnecting ∷ failed ∷ []
allowed_transitions overlap =
    listening ∷ speaking ∷ interrupted ∷ recovering ∷ disconnecting ∷ failed ∷ []
allowed_transitions tool_wait =
    speaking ∷ thinking ∷ listening ∷ recovering ∷ disconnecting ∷ failed ∷ []
allowed_transitions recovering =
    listening ∷ thinking ∷ speaking ∷ handoff ∷ disconnecting ∷ failed ∷ []
allowed_transitions handoff = listening ∷ disconnecting ∷ failed ∷ []
allowed_transitions disconnecting = idle ∷ failed ∷ []
allowed_transitions failed = recovering ∷ handoff ∷ disconnecting ∷ []

-- `target in ALLOWED_TRANSITIONS[source]`
unfoldable pub is_allowed : ConversationState → ConversationState → Bool
unfolding allowed_transitions
is_allowed source target = contains target (allowed_transitions source)

-- One allowed transition.
abbrev pub Edge : ConversationState → ConversationState → Type 0
Edge s t = is_allowed s t ≡ true

pub data Reaches (s : ConversationState) : ConversationState → Type 0 where
  here : Reaches s s
  next : {t u : ConversationState} → Reaches s t → Edge t u → Reaches s u

Reaches-trans : {s t u : ConversationState} → Reaches s t → Reaches t u → Reaches s u
Reaches-trans r here = r
Reaches-trans r (next q e) = next (Reaches-trans r q) e

Reaches-idle : (s : ConversationState) → Reaches s idle
unfolding is_allowed
Reaches-idle idle = here
Reaches-idle disconnecting = next here refl
Reaches-idle _ = next {t = disconnecting} (next here refl) refl

idle-thinking : Reaches idle thinking
unfolding is_allowed
idle-thinking = next {t = listening} (next here refl) refl

idle-Reaches : (t : ConversationState) → Reaches idle t
unfolding is_allowed
idle-Reaches idle = here
idle-Reaches listening = next here refl
idle-Reaches disconnecting = next here refl
idle-Reaches failed = next here refl
idle-Reaches possible_end_of_turn = next {t = listening} (next here refl) refl
idle-Reaches overlap = next {t = listening} (next here refl) refl
idle-Reaches recovering = next {t = failed} (next here refl) refl
idle-Reaches handoff = next {t = failed} (next here refl) refl
idle-Reaches thinking = idle-thinking
idle-Reaches possible_interruption = next {t = speaking} (next idle-thinking refl) refl
idle-Reaches _ = next idle-thinking refl

-- The table is strongly connected: every state has a way to every other state.
pub Reaches-all : (s t : ConversationState) → Reaches s t
Reaches-all s t = Reaches-trans (Reaches-idle s) (idle-Reaches t)

-- The table has no transition from a state to itself.
pub is_allowed_irrefl : (s : ConversationState) → is_allowed s s ≡ false
unfolding is_allowed
is_allowed_irrefl idle = refl
is_allowed_irrefl _ = refl
