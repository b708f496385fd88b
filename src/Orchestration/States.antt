-- ===== src/Orchestration/States.antt =====
-- backend/app/orchestration/states.py: the state machine of a job, and its reachable states.
use mathlib.Core.Logic.{◌↔◌}
use call_audit_supervisor.Common.{
  ℕ, ◌<◌, ◌≡◌, refl, ◌⊎◌, inl, inr, Bool, true, false, Option, none, some, List, [], ◌∷◌, arith,
}

-- `JobState` of backend/app/models/__init__.py.
pub data JobState : Type 0 where
  pending_transcription awaiting_transcript pending_judge done failed : JobState

-- `a is b` on members of the enumeration.
abbrev pub same_state : JobState → JobState → Bool
same_state pending_transcription pending_transcription = true
same_state awaiting_transcript awaiting_transcript = true
same_state pending_judge pending_judge = true
same_state done done = true
same_state failed failed = true
same_state _ _ = false

-- `s in states`
abbrev pub elem_state : JobState → List JobState → Bool
elem_state s [] = false
elem_state s (t ∷ ts) = elim (same_state s t) [ true ↦ true | false ↦ elem_state s ts ]

abbrev pub claimable : List JobState
claimable = pending_transcription ∷ pending_judge ∷ []

abbrev pub parked : List JobState
parked = awaiting_transcript ∷ []

abbrev pub terminal : List JobState
terminal = done ∷ failed ∷ []

-- `_ALLOWED.get(src, frozenset())`
abbrev pub allowed : JobState → List JobState
allowed pending_transcription = awaiting_transcript ∷ failed ∷ []
allowed awaiting_transcript = pending_judge ∷ failed ∷ []
allowed pending_judge = done ∷ failed ∷ []
allowed _ = []

unfoldable pub is_claimable : JobState → Bool
is_claimable s = elem_state s claimable

unfoldable pub is_terminal : JobState → Bool
is_terminal s = elem_state s terminal

unfoldable pub can_transition : JobState → JobState → Bool
can_transition src dst = elem_state dst (allowed src)

-- A `ValueError` is `none`.
unfoldable pub assert_transition : JobState → JobState → Option (Unit {0})
unfolding can_transition
assert_transition src dst = elim (can_transition src dst) [ true ↦ some tt | false ↦ none ]

-- The state machine as a graph, read off the diagram at the head of the file.
infix 40 ◌⟶◌ ◌⟶*◌
pub data ◌⟶◌ : JobState → JobState → Type 0 where
  submit : pending_transcription ⟶ awaiting_transcript
  webhook : awaiting_transcript ⟶ pending_judge
  report : pending_judge ⟶ done
  exhausted : pending_transcription ⟶ failed
  judge_exhausted : pending_judge ⟶ failed

-- The edge of the table that the diagram does not draw.
pub data IsUndrawn : JobState → JobState → Type 0 where
  stt_error : IsUndrawn awaiting_transcript failed

pub data ◌⟶*◌ : JobState → JobState → Type 0 where
  here : {s : JobState} → s ⟶* s
  then : {s t u : JobState} → s ⟶ t → t ⟶* u → s ⟶* u

edge_of_can_transition : (s t : JobState) → can_transition s t ≡ true → (s ⟶ t) ⊎ IsUndrawn s t
unfolding can_transition
edge_of_can_transition pending_transcription awaiting_transcript h = inl submit
edge_of_can_transition pending_transcription failed h = inl exhausted
edge_of_can_transition awaiting_transcript pending_judge h = inl webhook
edge_of_can_transition awaiting_transcript failed h = inr stt_error
edge_of_can_transition pending_judge done h = inl report
edge_of_can_transition pending_judge failed h = inl judge_exhausted
edge_of_can_transition _ _ h = cc

can_transition_of_edge : {s t : JobState} → (s ⟶ t) ⊎ IsUndrawn s t → can_transition s t ≡ true
unfolding can_transition
can_transition_of_edge (inl submit) = refl
can_transition_of_edge (inl webhook) = refl
can_transition_of_edge (inl report) = refl
can_transition_of_edge (inl exhausted) = refl
can_transition_of_edge (inl judge_exhausted) = refl
can_transition_of_edge (inr stt_error) = refl

-- How many steps a job still has before its end.
abbrev pub stage : JobState → ℕ
stage pending_transcription = 3
stage awaiting_transcript = 2
stage pending_judge = 1
stage done = 0
stage failed = 0

-- The checked transitions are the edges that the head of the file draws and one more, from
-- `awaiting_transcript` to `failed`; a state is terminal exactly when no transition leaves it; every
-- transition lowers the stage; and from every state but `failed` a chain of drawn edges leads to
-- `done`.
pub machine_lem :
    (s t : JobState)
    → ((can_transition s t ≡ true) ↔ ((s ⟶ t) ⊎ IsUndrawn s t))
      × ((can_transition s t ≡ false) ⊎ ((stage t < stage s) × (is_terminal s ≡ false)))
      × ((is_terminal s ≡ true) ⊎ ((u : JobState) × (can_transition s u ≡ true)))
      × ((s ⟶* done) ⊎ (s ≡ failed))
unfolding can_transition is_terminal
machine_lem s t = (
  (edge_of_can_transition s t, λ e. can_transition_of_edge e),
  ground arith,
  way_on s,
  way_done s,
)
  where
    way_on :
        (s : JobState) → (is_terminal s ≡ true) ⊎ ((u : JobState) × (can_transition s u ≡ true))
    way_on pending_transcription = inr (failed, refl)
    way_on awaiting_transcript = inr (failed, refl)
    way_on pending_judge = inr (failed, refl)
    way_on done = inl refl
    way_on failed = inl refl

    way_done : (s : JobState) → (s ⟶* done) ⊎ (s ≡ failed)
    way_done pending_transcription = inl (then submit (then webhook (then report here)))
    way_done awaiting_transcript = inl (then webhook (then report here))
    way_done pending_judge = inl (then report here)
    way_done done = inl here
    way_done failed = inr refl
