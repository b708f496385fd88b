-- ===== src/Access/Authorize.antt =====
-- backend/app/authz.py: the gate in front of the routes. The tables are association lists, and a
-- role's name is one of `Role` (the seeded rows of `roles`). What is checked is the user that
-- `CurrentUser` has authenticated; a request without one does not come here.
use mathlib.Core.Path.{subst}
use call_audit_supervisor.Common.{
  ℕ, ◌≡◌, refl, ◌∙◌, inl, inr, Bool, true, false, ◌&&◌, Option, none, some, List, find?, ◌==◌,
  if◌then◌else◌, Bool-cases, arith,
}
use call_audit_supervisor.Access.Permissions.{Role, admin, same_role, Action, is_allowed}

pub record OrgMember : Type 0 where
  pub user_id : ℕ
  pub role : Role

pub record PortfolioMember : Type 0 where
  pub user_id : ℕ
  pub portfolio_id : ℕ
  pub role : Role

pub record CallRow : Type 0 where
  pub id : ℕ
  pub portfolio_id : ℕ

pub record ReportRow : Type 0 where
  pub id : ℕ
  pub call_id : ℕ

pub record ReportItemRow : Type 0 where
  pub id : ℕ
  pub report_id : ℕ

pub record Tables : Type 0 where
  pub org_members : List OrgMember
  pub portfolio_members : List PortfolioMember
  pub calls : List CallRow
  pub reports : List ReportRow
  pub report_items : List ReportItemRow

-- What a passed check gives to the route.
pub record AuthContext : Type 0 where
  pub user : ℕ
  pub role : Role
  pub portfolio_id : Option ℕ

pub data Checked : Type 0 where
  passed : AuthContext → Checked
  forbidden not_found : Checked

abbrev org_grant : Option OrgMember → Option Role
org_grant none = none
org_grant (some m) = some m.role

unfoldable pub org_role : Tables → ℕ → Option Role
org_role db user = org_grant (find? (λ m. m.user_id == user) db.org_members)

abbrev is_admin : Option Role → Bool
is_admin none = false
is_admin (some r) = same_role r admin

abbrev member_or : Option Role → Option PortfolioMember → Option Role
member_or org none = org
member_or org (some m) = some m.role

unfoldable pub portfolio_role : Tables → ℕ → ℕ → Option Role
unfolding org_role
portfolio_role db user pid =
    let org = org_role db user in
    if is_admin org
    then some admin
    else member_or org
        (find? (λ m. m.user_id == user && m.portfolio_id == pid) db.portfolio_members)

-- `if role is None or not is_allowed(role, action): raise _FORBIDDEN`
abbrev gate : Action → ℕ → Option ℕ → Option Role → Checked
gate action user pid none = forbidden
gate action user pid (some role) =
    if is_allowed role action
    then passed (record { user = user; role = role; portfolio_id = pid })
    else forbidden

unfoldable pub authorize : Action → Tables → ℕ → ℕ → Checked
authorize action db user pid = gate action user (some pid) (portfolio_role db user pid)

unfoldable pub authorize_org : Action → Tables → ℕ → Checked
authorize_org action db user = gate action user none (org_role db user)

-- The joins through `calls`, `reports` and `report_items`, on primary keys.
abbrev portfolio_of_call : Option CallRow → Option ℕ
portfolio_of_call none = none
portfolio_of_call (some c) = some c.portfolio_id

abbrev call_of_report : Tables → Option ReportRow → Option ℕ
call_of_report db none = none
call_of_report db (some r) = portfolio_of_call (find? (λ c. c.id == r.call_id) db.calls)

unfoldable pub portfolio_of_report : Tables → ℕ → Option ℕ
portfolio_of_report db report_id = call_of_report db (find? (λ r. r.id == report_id) db.reports)

abbrev report_of_item : Tables → Option ReportItemRow → Option ℕ
report_of_item db none = none
report_of_item db (some i) = portfolio_of_report db i.report_id

unfoldable pub portfolio_of_report_item : Tables → ℕ → Option ℕ
portfolio_of_report_item db item_id =
    report_of_item db (find? (λ i. i.id == item_id) db.report_items)

abbrev at_portfolio : Action → Tables → ℕ → Option ℕ → Checked
at_portfolio action db user none = not_found
at_portfolio action db user (some pid) = gate action user (some pid) (portfolio_role db user pid)

unfoldable pub authorize_report : Action → Tables → ℕ → ℕ → Checked
authorize_report action db user report_id =
    at_portfolio action db user (portfolio_of_report db report_id)

unfoldable pub authorize_report_item : Action → Tables → ℕ → ℕ → Checked
authorize_report_item action db user item_id =
    at_portfolio action db user (portfolio_of_report_item db item_id)

-- Where a right comes from: an organisation-wide admin, a role in this very portfolio, or, for one
-- who is no member of it, a role in the organisation.
abbrev pub is_member_of : ℕ → ℕ → PortfolioMember → Bool
is_member_of user pid m = m.user_id == user && m.portfolio_id == pid

pub data Granted (db : Tables) (user pid : ℕ) : Role → Type 0 where
  org_admin : org_role db user ≡ some admin → Granted db user pid admin
  member :
      {m : PortfolioMember} {r : Role}
      → find? (is_member_of user pid) db.portfolio_members ≡ some m
      → r ≡ m.role
      → Granted db user pid r
  org_other :
      {r : Role}
      → find? (is_member_of user pid) db.portfolio_members ≡ none
      → org_role db user ≡ some r
      → Granted db user pid r

Granted-by_member :
    (db : Tables) (user pid : ℕ) (org : Option Role) (m : Option PortfolioMember) (r : Role)
    → org_role db user ≡ org
    → find? (is_member_of user pid) db.portfolio_members ≡ m
    → member_or org m ≡ some r
    → Granted db user pid r
Granted-by_member db user pid org none r e k h = org_other k (e ∙ h)
Granted-by_member db user pid org (some m) r e k h = member k (cc)

is_admin_lem : (o : Option Role) → is_admin o ≡ true → o ≡ some admin
is_admin_lem none h = cc
is_admin_lem (some r) h = ground arith

some_inj : {a b : Role} → some a ≡ some b → a ≡ b
some_inj h = cc

role-Granted :
    (db : Tables) (user pid : ℕ) (r : Role)
    → portfolio_role db user pid ≡ some r
    → Granted db user pid r
unfolding portfolio_role
role-Granted db user pid r = elim (Bool-cases (is_admin (org_role db user))) [
  | inl e ↦ rw e (λ h. by_admin h (is_admin_lem (org_role db user) e))
  | inr e ↦ rw e (λ h. Granted-by_member db user pid (org_role db user) _ r refl refl h)
]
  where
    by_admin :
        ◌≡◌ {A = Option Role} (some admin) (some r)
        → org_role db user ≡ some admin
        → Granted db user pid r
    by_admin h k = subst (Granted db user pid) (some_inj h) (org_admin k)

-- What a passed check of a route in a portfolio means.
pub record Passed (action : Action) (db : Tables) (user pid : ℕ) (ctx : AuthContext) : Type 0 where
  pub is_user : ctx.user ≡ user
  pub is_portfolio : ctx.portfolio_id ≡ some pid
  pub may : is_allowed ctx.role action ≡ true
  pub granted : Granted db user pid ctx.role

checked_inj : {a b : AuthContext} → passed a ≡ passed b → a ≡ b
checked_inj h = cc

some_id : {a b : ℕ} → some a ≡ some b → a ≡ b
some_id h = cc

gate-passed :
    (action : Action) (db : Tables) (user pid : ℕ) (role : Option Role) (ctx : AuthContext)
    → portfolio_role db user pid ≡ role
    → gate action user (some pid) role ≡ passed ctx
    → Passed action db user pid ctx
gate-passed action db user pid none ctx e = λ h. cc
gate-passed action db user pid (some r) ctx e = elim (Bool-cases (is_allowed r action)) [
  | inl a ↦ rw a (λ h. subst (Passed action db user pid) (checked_inj h) (record {
    is_user = refl;
    is_portfolio = refl;
    may = a;
    granted = role-Granted db user pid r e;
  }))
  | inr a ↦ rw a (λ h. cc)
]

at_portfolio-passed :
    (action : Action) (db : Tables) (user : ℕ) (pid : Option ℕ) (ctx : AuthContext)
    → at_portfolio action db user pid ≡ passed ctx
    → (p : ℕ) × (pid ≡ some p) × Passed action db user p ctx
at_portfolio-passed action db user none ctx h = cc
at_portfolio-passed action db user (some p) ctx h =
    (p, refl, gate-passed action db user p (portfolio_role db user p) ctx refl h)

module _ (action : Action) (db : Tables) (user : ℕ) (ctx : AuthContext) where
  -- No route of a portfolio is passed without a right in that portfolio: its context names the
  -- user and the portfolio of the path, the matrix allows the action to the role, and the role
  -- comes from an organisation-wide admin grant, from a membership of this very portfolio, or from
  -- the organisation.
  pub authorize_sound :
      (pid : ℕ) → authorize action db user pid ≡ passed ctx → Passed action db user pid ctx
  unfolding authorize
  authorize_sound pid h = gate-passed action db user pid (portfolio_role db user pid) ctx refl h

  -- A route of a report is passed only with a right in the portfolio of the call that the report
  -- is about; the caller does not choose the portfolio.
  pub authorize_report_sound :
      (report_id : ℕ)
      → authorize_report action db user report_id ≡ passed ctx
      → (p : ℕ) × (portfolio_of_report db report_id ≡ some p) × Passed action db user p ctx
  unfolding authorize_report
  authorize_report_sound report_id h =
      at_portfolio-passed action db user (portfolio_of_report db report_id) ctx h

  -- The same for a route of one item of a report.
  pub authorize_report_item_sound :
      (item_id : ℕ)
      → authorize_report_item action db user item_id ≡ passed ctx
      → (p : ℕ) × (portfolio_of_report_item db item_id ≡ some p) × Passed action db user p ctx
  unfolding authorize_report_item
  authorize_report_item_sound item_id h =
      at_portfolio-passed action db user (portfolio_of_report_item db item_id) ctx h

-- Tenants are apart: who has no role in the organisation and is no member of the portfolio is
-- refused every action in it, whatever they may do in other portfolios.
pub outsider_forbidden :
    (action : Action) (db : Tables) (user pid : ℕ)
    → org_role db user ≡ none
    → find? (is_member_of user pid) db.portfolio_members ≡ none
    → authorize action db user pid ≡ forbidden
unfolding authorize portfolio_role
outsider_forbidden action db user pid o m = rw o (rw m refl)
