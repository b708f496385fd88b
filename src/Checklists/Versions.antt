-- ===== src/Checklists/Versions.antt =====
-- backend/app/checklists/service.py: checklists, their items and their versions. The ids of
-- checklists come from a counter of the database: what the code relies on is that a new id is no id
-- in use. The ids of items come in no order: `uuid` is an arbitrary function of the counter.
pub mod History
pub mod Items
use call_audit_supervisor.Common.{
  ℕ, suc, ◌+◌, ◌≡◌, Bool, true, false, not, ◌&&◌, Option, none, some, List, [], ◌∷◌, ◌++◌, String,
  filter, any, update_where, find?, ◌==◌, leb, if◌then◌else◌,
}
use call_audit_supervisor.Common.Sort.{sort_by}

-- The `status` column, with the values that the code writes.
pub data Status : Type 0 where
  active archived deleted : Status

pub record Checklist : Type 0 where
  pub id : ℕ
  pub portfolio_id : ℕ
  pub family_id : ℕ
  pub name : String
  pub is_default : Bool
  pub version : ℕ
  pub status : Status
  pub requires_kb : Bool
  pub created_at : ℕ

-- What an item says, as the builder sends it; a missing key has its default here already.
pub record Item : Type 0 where
  pub section : String
  pub text : String
  pub answer_type : String
  pub is_subjective : Bool
  pub risk : String
  pub guidance : Option String
  pub options : Option (List String)

pub record ChecklistItem : Type 0 where
  pub id : ℕ
  pub checklist_id : ℕ
  pub sort_order : ℕ
  pub item : Item

-- The column of a report that names the checklist it was judged against.
pub record Report : Type 0 where
  pub id : ℕ
  pub checklist_id : Option ℕ

pub record Db : Type 0 where
  pub checklists : List Checklist
  pub items : List ChecklistItem
  pub reports : List Report
  pub next_id : ℕ
  pub uuid : ℕ → ℕ
  pub now : ℕ

abbrev pub fresh_id : Db → ℕ × Db
fresh_id db = (db.next_id, record db { next_id = db.next_id + 1 })

-- The rows that the loop adds, from an index on.
abbrev pub rows_from : (ℕ → ℕ) → ℕ → ℕ → ℕ → List Item → List ChecklistItem
rows_from uuid n checklist_id i [] = []
rows_from uuid n checklist_id i (x ∷ xs) =
    record { id = uuid n; checklist_id = checklist_id; sort_order = i; item = x }
    ∷ rows_from uuid (suc n) checklist_id (suc i) xs

abbrev count : List Item → ℕ
count [] = 0
count (x ∷ xs) = suc (count xs)

-- `_add_items`
unfoldable pub add_items : ℕ → List Item → Db → Db
add_items checklist_id items db = record db {
  items = db.items ++ rows_from db.uuid db.next_id checklist_id 0 items;
  next_id = db.next_id + count items;
}

abbrev add_checklist : Checklist → Db → Db
add_checklist c db = record db { checklists = db.checklists ++ c ∷ []; next_id = db.next_id + 1 }

-- `create_checklist`; the family gets an id of its own.
abbrev created : ℕ → ℕ → String → Bool → Bool → Db → Checklist
created pid family name is_default requires_kb db = record {
  id = db.next_id;
  portfolio_id = pid;
  family_id = family;
  name = name;
  is_default = is_default;
  version = 1;
  status = active;
  requires_kb = requires_kb;
  created_at = db.now;
}

unfoldable pub create_checklist : ℕ → String → List Item → Bool → Db → Checklist × Db
unfolding add_items
create_checklist pid name items requires_kb db =
    let (family, db') = fresh_id db in
    let c = created pid family name false requires_kb db' in
    (c, add_items c.id items (add_checklist c db'))

abbrev pub names : ℕ → Option ℕ → Bool
names k none = false
names k (some c) = c == k

-- `is_used_by_report`
unfoldable pub is_used_by_report : ℕ → Db → Bool
is_used_by_report k db = any (λ r. names k r.checklist_id) db.reports

abbrev pub has_id : ℕ → Checklist → Bool
has_id k c = c.id == k

abbrev pub of_checklist : ℕ → ChecklistItem → Bool
of_checklist k x = x.checklist_id == k

abbrev keep_kb : Bool → Option Bool → Bool
keep_kb old none = old
keep_kb old (some b) = b

-- Unused: edited in place, the items replaced wholesale.
abbrev pub edited : Checklist → String → Bool → Checklist
edited c name kb = record c { name = name; requires_kb = kb }

unfoldable pub edit_in_place : Checklist → String → List Item → Bool → Db → Checklist × Db
unfolding add_items
edit_in_place c name items kb db = (
  edited c name kb,
  add_items c.id items (record db {
    checklists = update_where (has_id c.id) (λ x. edited x name kb) db.checklists;
    items = filter (λ x. not (of_checklist c.id x)) db.items;
  }),
)

-- Used: archived, and published as the next version.
abbrev pub next_version : Checklist → String → Bool → Db → Checklist
next_version c name kb db = record {
  id = db.next_id;
  portfolio_id = c.portfolio_id;
  family_id = c.family_id;
  name = name;
  is_default = c.is_default;
  version = c.version + 1;
  status = active;
  requires_kb = kb;
  created_at = db.now;
}

abbrev pub archive : Checklist → Checklist
archive c = record c { status = archived }

unfoldable pub publish_version : Checklist → String → List Item → Bool → Db → Checklist × Db
unfolding add_items
publish_version c name items kb db =
    let v = next_version c name kb db in
    (
      v,
      add_items v.id items (
          add_checklist v
            (record db { checklists = update_where (has_id c.id) archive db.checklists })),
    )

unfoldable pub update_checklist : Checklist → String → List Item → Option Bool → Db → Checklist × Db
unfolding edit_in_place publish_version is_used_by_report
update_checklist c name items requires_kb db =
    let kb = keep_kb c.requires_kb requires_kb in
    if is_used_by_report c.id db
    then publish_version c name items kb db
    else edit_in_place c name items kb db

abbrev pub in_family : ℕ → Checklist → Bool
in_family family c = c.family_id == family

-- The whole family gets the name.
unfoldable pub rename_checklist : Checklist → String → Db → Db
rename_checklist c name db = record db {
  checklists = update_where (in_family c.family_id) (λ x. record x { name = name }) db.checklists;
}

unfoldable pub soft_delete_checklist : Checklist → Db → Db
soft_delete_checklist c db = record db {
  checklists =
      update_where (in_family c.family_id) (λ x. record x { status = deleted }) db.checklists;
}

abbrev pub is_active : Status → Bool
is_active active = true
is_active _ = false

unfoldable pub list_active_checklists : ℕ → Db → List Checklist
list_active_checklists pid db =
    sort_by (λ c. c.created_at)
      (filter (λ c. c.portfolio_id == pid && is_active c.status) db.checklists)

-- `ORDER BY version DESC LIMIT 1`
abbrev newest : List Checklist → Option Checklist
newest [] = none
newest (c ∷ cs) = elim (newest cs) [
  | none ↦ some c
  | some d ↦ if leb d.version c.version then some c else some d
]

unfoldable pub get_default_checklist : ℕ → Db → Option Checklist
get_default_checklist pid db =
    newest (filter (λ c. c.portfolio_id == pid && c.is_default && is_active c.status) db.checklists)

-- `ORDER BY sort_order, id`: stable, so by the id first.
unfoldable pub get_items : ℕ → Db → List ChecklistItem
get_items k db =
    sort_by (λ x. x.sort_order) (sort_by (λ x. x.id) (filter (of_checklist k) db.items))
