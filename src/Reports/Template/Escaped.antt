-- ===== src/Reports/Template/Escaped.antt =====
-- What a template without raw tags can print: backend/app/reports/template.py.
use mathlib.Core.Path.{subst}
use call_audit_supervisor.Common.{
  ℕ, zero, suc, ◌≡◌, refl, sym, ap, inl, inr, Bool, false, ◌||◌, Option, none, some, List, [], ◌∷◌,
  ◌++◌, length, ◌==◌, All, All-append, Bool-cases, arith,
}
use call_audit_supervisor.Common.Codes.{Text}
use call_audit_supervisor.Judge.Schema.{Json}
use call_audit_supervisor.Reports.Template.{
  Token, text, var, raw, section, inverted, close, lookup, escape_char, html_escape, depth_after,
  skip, Printed, is_stop, raw_text, escaped, render_block, render_tokens,
}
use call_audit_supervisor.Reports.Template.Blocks.{Closed, section-IsGood, inverted-IsGood}

-- The characters that open a tag or end an attribute: `<`, `>`, `"` and `'`.
abbrev pub is_markup : ℕ → Bool
is_markup c = c == 60 || c == 62 || c == 34 || c == 39

abbrev pub IsPlain : Text → Type 0
IsPlain s = All (λ c. is_markup c ≡ false) s

-- A text put together from pieces of the template's own and from plain ones.
pub data IsWoven (IsOwn : Text → Type 0) : Text → Type 0 where
  done : IsWoven IsOwn []
  own : (s out : Text) → IsOwn s → IsWoven IsOwn out → IsWoven IsOwn (s ++ out)
  plain : (s out : Text) → IsPlain s → IsWoven IsOwn out → IsWoven IsOwn (s ++ out)

-- A text of the template's own, or a tag that is not raw.
abbrev pub IsSafe : (Text → Type 0) → Token → Type 0
IsSafe IsOwn (text s) = IsOwn s
IsSafe IsOwn (raw x) = ⊥
IsSafe IsOwn _ = Unit {0}

append_assoc : (s t u : Text) → (s ++ t) ++ u ≡ s ++ (t ++ u)
append_assoc [] t u = refl
append_assoc (c ∷ s) t u = ap (λ r. c ∷ r) (append_assoc s t u)

escape_char-IsPlain : (c : ℕ) → IsPlain (escape_char c)
unfolding escape_char
escape_char-IsPlain c = ground arith

html_escape-IsPlain : (s : Text) → IsPlain (html_escape s)
html_escape-IsPlain [] = tt
html_escape-IsPlain (c ∷ s) =
    All-append _ (escape_char c) (html_escape s) (escape_char-IsPlain c) (html_escape-IsPlain s)

module _ (IsOwn : Text → Type 0) where
  IsWoven-append : {s t : Text} → IsWoven IsOwn s → IsWoven IsOwn t → IsWoven IsOwn (s ++ t)
  IsWoven-append done w = w
  IsWoven-append {s = _} {t = t} (own s out h v) w =
      subst (IsWoven IsOwn) (sym (append_assoc s out t)) (own s (out ++ t) h (IsWoven-append v w))
  IsWoven-append {s = _} {t = t} (plain s out h v) w =
      subst (IsWoven IsOwn) (sym (append_assoc s out t)) (plain s (out ++ t) h (IsWoven-append v w))

  abbrev pub AllSafe : List Token → Type 0
  AllSafe ts = All (IsSafe IsOwn) ts

  -- What has been printed is woven, and the tokens that are left are safe.
  abbrev IsGood : Printed → Type 0
  IsGood (out, ts) = IsWoven IsOwn out × AllSafe ts

  skip-AllSafe : (name : Text) (d : ℕ) (ts : List Token) → AllSafe ts → AllSafe (skip name d ts)
  skip-AllSafe name zero ts h = h
  skip-AllSafe name (suc d) [] h = h
  skip-AllSafe name (suc d) (t ∷ ts) (_, h) = skip-AllSafe name (depth_after name t (suc d)) ts h

  closed : Closed IsGood AllSafe
  closed = record {
    stays = λ ts h. (done, h);
    leaves = λ p good. good.1;
    skips = λ name ts h. skip-AllSafe name 1 ts h;
    joins = λ p q good later. (IsWoven-append good.0 later.0, later.1);
  }

  module _ (repr : Json → Text) where
    render_block-IsGood :
        (n : ℕ) (stack : List Json) (stop : Option Text) (ts : List Token)
        → AllSafe ts
        → IsGood (render_block repr n stack stop ts)
    unfolding escaped
    render_block-IsGood zero stack stop ts h = (done, h)
    render_block-IsGood (suc n) stack stop [] h = (done, h)
    render_block-IsGood (suc n) stack stop (text s ∷ ts) (o, h) =
        let (w, r) = render_block-IsGood n stack stop ts h in (own s _ o w, r)
    render_block-IsGood (suc n) stack stop (var x ∷ ts) (_, h) =
        let (w, r) = render_block-IsGood n stack stop ts h in
        (
          plain (escaped repr (lookup x stack)) _
              (html_escape-IsPlain (raw_text repr (lookup x stack))) w,
          r,
        )
    render_block-IsGood (suc n) stack stop (raw x ∷ ts) (unsafe, h) = absurd unsafe
    render_block-IsGood (suc n) stack stop (section x ∷ ts) (_, h) =
        section-IsGood IsGood AllSafe closed (render_block repr n stack stop)
          (render_block-IsGood n stack stop) x ts (lookup x stack) h
          (λ v. render_block repr n (v ∷ stack) (some x) ts)
          (λ v. render_block-IsGood n (v ∷ stack) (some x) ts h)
    render_block-IsGood (suc n) stack stop (inverted x ∷ ts) (_, h) =
        inverted-IsGood IsGood AllSafe closed (render_block repr n stack stop)
          (render_block-IsGood n stack stop) x ts (lookup x stack) h
          (render_block repr n stack (some x) ts) (render_block-IsGood n stack (some x) ts h)
    render_block-IsGood (suc n) stack stop (close x ∷ ts) (_, h) =
        elim (Bool-cases (is_stop stop x)) [
          | inl e ↦ rw e (done, h)
          | inr e ↦ rw e (render_block-IsGood n stack stop ts h)
        ]

    -- A template whose texts are its own and that has no raw tag prints, in whatever context, a text
    -- that is put together from its own texts and from pieces without `<`, `>`, `"` and `'`.
    pub render_tokens-escaped :
        (ts : List Token) (context : Json)
        → AllSafe ts
        → IsWoven IsOwn (render_tokens repr ts context)
    unfolding render_tokens
    render_tokens-escaped ts context h =
        (render_block-IsGood (length ts) (context ∷ []) none ts h).0
