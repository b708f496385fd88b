-- ===== src/Judge/Prompts.antt =====
-- What the agents of a call are told: the prompt bodies and output schemas in use
-- (backend/app/judge/prompt_store.py and schema_store.py) and the knowledge base
-- (backend/app/checklists/rubric.py).
use call_audit_supervisor.Common.{
  ℕ, ◌≡◌, refl, Bool, true, false, ◌&&◌, Option, none, some, List, [], ◌∷◌, ◌++◌, String, filter,
  take, ◌==◌, str_eq, str_eq_iff, contains, any, Bool-cases, ◌⊎◌, inl, inr, sym, ap, ◌∙◌,
  if◌then◌else◌,
}
use call_audit_supervisor.Common.Codes.{Text, is_empty}
use call_audit_supervisor.Judge.Scope.{Scoped, resolve_scoped, IsBest, resolve_scoped_lem}
use call_audit_supervisor.Judge.Schema.{Json, obj}

-- A row of the agent studio without its scope: an agent's text or schema, and whether it is in use.
pub record Stored (A : Type 0) : Type 0 where
  pub id : ℕ
  pub agent : String
  pub in_use : Bool
  pub content : A

-- `AGENTS` and `STAGES`
abbrev pub agents : List String
agents = "feedback" ∷ "checklist" ∷ "ideal" ∷ "merged" ∷ []

-- `out.get(agent)`
abbrev pub lookup : {B : Type 0} → String → List (String × B) → Option B
lookup ag [] = none
lookup ag ((a, b) ∷ out) = let rest = lookup ag out in if str_eq a ag then some b else rest

same_text : (a b : String) → str_eq a b ≡ true → a ≡ b
same_text a b h = (str_eq_iff a b).0 h

module _ {A B : Type 0} (content : A → Option B) (portfolio_id agent_id : Option ℕ)
    (rows : List (Scoped (Stored A))) where
  abbrev pub of_agent : String → List (Scoped (Stored A))
  of_agent ag = filter (λ r. str_eq r.payload.agent ag) (filter (λ r. r.payload.in_use) rows)

  -- `content` is the check of the type, which refuses a row.
  abbrev pub content_of : Option (Scoped (Stored A)) → Option B
  content_of none = none
  content_of (some row) = content row.payload.content

  abbrev add_entry : String → Option B → List (String × B) → List (String × B)
  add_entry ag none out = out
  add_entry ag (some b) out = (ag, b) ∷ out

  abbrev entries : List String → List (String × B)
  entries [] = []
  entries (ag ∷ ags) =
      add_entry ag (content_of (resolve_scoped portfolio_id agent_id (of_agent ag))) (entries ags)

  unfoldable pub load_active : List (String × B)
  load_active = entries agents

  -- The content of the row that applies to an agent.
  abbrev pub chosen : String → Option B
  chosen ag = content_of (resolve_scoped portfolio_id agent_id (of_agent ag))

  lookup-add_entry :
      (ag a : String) (o : Option B) (out : List (String × B))
      → str_eq a ag ≡ false
      → lookup ag (add_entry a o out) ≡ lookup ag out
  lookup-add_entry ag a none out h = refl
  lookup-add_entry ag a (some b) out h = rw h refl

  lookup-own :
      (ag a : String) (o : Option B) (out : List (String × B))
      → str_eq a ag ≡ true
      → (lookup ag out ≡ none) ⊎ (lookup ag out ≡ o)
      → lookup ag (add_entry a o out) ≡ o
  lookup-own ag a none out h (inl e) = e
  lookup-own ag a none out h (inr e) = e
  lookup-own ag a (some b) out h e = rw h refl

  either : (b : Bool) (x y : Option B) → x ≡ (if b then y else none) → (x ≡ none) ⊎ (x ≡ y)
  either true x y h = inr h
  either false x y h = inl h

  lookup-entries :
      (ag : String) (ags : List String)
      → lookup ag (entries ags) ≡ (if any (λ a. str_eq a ag) ags then chosen ag else none)
  lookup-entries ag [] = refl
  lookup-entries ag (a ∷ ags) = elim (Bool-cases (str_eq a ag)) [
    | inl e ↦ rw e (
        lookup-own ag a (chosen a) (entries ags) e (
          either (any (λ x. str_eq x ag) ags) (lookup ag (entries ags)) (chosen a) (
            lookup-entries ag ags
            ∙ ap (λ z. if any (λ x. str_eq x ag) ags then chosen z else none)
                (sym (same_text a ag e))))
        ∙ ap chosen (same_text a ag e))
    | inr e ↦ rw e (lookup-add_entry ag a (chosen a) (entries ags) e ∙ lookup-entries ag ags)
  ]

  -- An agent of the studio is given the row in use of its own that is most specific to the call, and
  -- is left out when no row in use applies or the row's content is refused.
  pub load_active_lem :
      (ag : String)
      → any (λ a. str_eq a ag) agents ≡ true
      → (lookup ag load_active ≡ chosen ag)
        × IsBest portfolio_id agent_id
            (of_agent ag)
            (resolve_scoped portfolio_id agent_id (of_agent ag))
  unfolding load_active
  load_active_lem ag h =
      (lookup-entries ag agents ∙ rw h refl, resolve_scoped_lem portfolio_id agent_id (of_agent ag))

abbrev pub load_active_prompts :
    Option ℕ → Option ℕ → List (Scoped (Stored String)) → List (String × String)
load_active_prompts = load_active some

-- `isinstance(content, dict)`
abbrev as_object : Json → Option Json
as_object (obj fields) = some (obj fields)
as_object _ = none

abbrev pub load_active_schemas :
    Option ℕ → Option ℕ → List (Scoped (Stored Json)) → List (String × Json)
load_active_schemas = load_active as_object

pub record Document : Type 0 where
  pub id : ℕ
  pub portfolio_id : ℕ
  pub text : Option Text

-- `None` and an empty list ask for every document.
abbrev pub asked_for : Option (List ℕ) → ℕ → Bool
asked_for none k = true
asked_for (some []) k = true
asked_for (some (i ∷ ids)) k = contains k (i ∷ ids)

-- The texts that are neither missing nor empty.
abbrev pub texts_of : List Document → List Text
texts_of [] = []
texts_of (d ∷ ds) = elim d.text [
  | none ↦ texts_of ds
  | some t ↦ if is_empty t then texts_of ds else t ∷ texts_of ds
]

-- `"\n\n".join(texts)`
abbrev pub joined : List Text → Text
joined [] = []
joined (t ∷ []) = t
joined (t ∷ u ∷ ts) = t ++ 10 ∷ 10 ∷ joined (u ∷ ts)

unfoldable pub kb_context : ℕ → Option (List ℕ) → List Document → Text
kb_context pid ids ds =
    joined (texts_of (filter (λ d. d.portfolio_id == pid && asked_for ids d.id) ds))

abbrev pub kb_char_cap : ℕ
kb_char_cap = 400000

unfoldable pub load_kb_text : ℕ → Option (List ℕ) → List Document → Option Text
unfolding kb_context
load_kb_text pid ids ds =
    let text = kb_context pid ids ds in if is_empty text then none else some (take kb_char_cap text)
