-- ===== src/Access/Permissions.antt =====
-- backend/app/rbac/permissions.py: the roles, the actions, and the matrix between them.
use mathlib.Core.Logic.{◌↔◌}
use call_audit_supervisor.Common.{◌≡◌, refl, ◌⊎◌, Bool, true, false, List, [], ◌∷◌, arith}

-- `Role`, in the order of the source.
pub data Role : Type 0 where
  admin supervisor agent manager analyst verifier viewer : Role

pub data Action : Type 0 where
  portfolio_create portfolio_delete portfolio_view user_manage agent_create agent_view
        agent_manage :
      Action
  kb_manage kb_view checklist_manage checklist_delete checklist_view recording_upload : Action
  recording_download recording_delete report_view report_note objections_view insights_view : Action
  verification_submit : Action

abbrev pub same_role : Role → Role → Bool
same_role admin admin = true
same_role supervisor supervisor = true
same_role agent agent = true
same_role manager manager = true
same_role analyst analyst = true
same_role verifier verifier = true
same_role viewer viewer = true
same_role _ _ = false

abbrev pub elem_role : Role → List Role → Bool
elem_role r [] = false
elem_role r (t ∷ ts) = elim (same_role r t) [ true ↦ true | false ↦ elem_role r ts ]

-- `_MATRIX`
abbrev pub matrix : Action → List Role
matrix portfolio_create = []
matrix portfolio_delete = []
matrix user_manage = []
matrix portfolio_view = supervisor ∷ agent ∷ manager ∷ analyst ∷ verifier ∷ viewer ∷ []
matrix agent_create = supervisor ∷ manager ∷ analyst ∷ []
matrix agent_view = supervisor ∷ agent ∷ manager ∷ analyst ∷ verifier ∷ viewer ∷ []
matrix agent_manage = supervisor ∷ manager ∷ []
matrix kb_manage = supervisor ∷ manager ∷ []
matrix kb_view = supervisor ∷ manager ∷ analyst ∷ verifier ∷ viewer ∷ []
matrix checklist_manage = supervisor ∷ manager ∷ []
matrix checklist_delete = []
matrix checklist_view = supervisor ∷ manager ∷ analyst ∷ verifier ∷ viewer ∷ []
matrix recording_upload = supervisor ∷ manager ∷ analyst ∷ []
matrix recording_download = supervisor ∷ agent ∷ manager ∷ verifier ∷ []
matrix recording_delete = supervisor ∷ manager ∷ []
matrix report_view = supervisor ∷ agent ∷ manager ∷ analyst ∷ verifier ∷ viewer ∷ []
matrix report_note = supervisor ∷ manager ∷ analyst ∷ verifier ∷ []
matrix objections_view = supervisor ∷ manager ∷ analyst ∷ verifier ∷ []
matrix insights_view = supervisor ∷ manager ∷ analyst ∷ verifier ∷ []
matrix verification_submit = supervisor ∷ verifier ∷ []

unfoldable pub is_allowed : Role → Action → Bool
is_allowed admin action = true
is_allowed role action = elem_role role (matrix action)

-- The actions that are the super admin's alone.
pub data AdminOnly : Action → Type 0 where
  creates : AdminOnly portfolio_create
  deletes : AdminOnly portfolio_delete
  manages_users : AdminOnly user_manage
  deletes_checklist : AdminOnly checklist_delete

-- What an agent may do: see the portfolio, its agents and reports, and download a recording.
pub data AgentMay : Action → Type 0 where
  sees_portfolio : AgentMay portfolio_view
  sees_agents : AgentMay agent_view
  sees_reports : AgentMay report_view
  downloads : AgentMay recording_download

pub ruleset listed = (
  creates, deletes, manages_users, deletes_checklist, sees_portfolio, sees_agents, sees_reports,
  downloads,
)

-- The roles' order: an admin may do whatever anyone may, and a supervisor whatever any other role
-- of the portfolio may.
above :
    (role : Role) (action : Action)
    → (is_allowed role action ≡ false) ⊎ (role ≡ admin) ⊎ (is_allowed supervisor action ≡ true)
unfolding is_allowed
above role action = ground arith

admin_only : (action : Action) → is_allowed supervisor action ≡ false → AdminOnly action
unfolding is_allowed
admin_only action h = grind (arith, listed)

refused : {action : Action} → AdminOnly action → is_allowed supervisor action ≡ false
unfolding is_allowed
refused creates = refl
refused deletes = refl
refused manages_users = refl
refused deletes_checklist = refl

agent_may : (action : Action) → is_allowed agent action ≡ true → AgentMay action
unfolding is_allowed
agent_may action h = grind (arith, listed)

agent_does : {action : Action} → AgentMay action → is_allowed agent action ≡ true
unfolding is_allowed
agent_does sees_portfolio = refl
agent_does sees_agents = refl
agent_does sees_reports = refl
agent_does downloads = refl

-- Every permission of three roles, and an order: an admin may do everything; a supervisor everything
-- but create or delete a portfolio, manage users and delete a checklist; an agent view the portfolio,
-- its agents and its reports and download recordings, and nothing else; and no role of a portfolio
-- may do what its supervisor may not.
pub matrix_lem :
    (role : Role) (action : Action)
    → (is_allowed admin action ≡ true)
      × ((is_allowed supervisor action ≡ false) ↔ AdminOnly action)
      × ((is_allowed agent action ≡ true) ↔ AgentMay action)
      × ((is_allowed role action ≡ false) ⊎ (role ≡ admin) ⊎ (is_allowed supervisor action ≡ true))
unfolding is_allowed
matrix_lem role action = (
  refl,
  (admin_only action, λ a. refused a),
  (agent_may action, λ a. agent_does a),
  above role action,
)
