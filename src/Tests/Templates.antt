-- ===== src/Tests/Templates.antt =====
-- A concrete template, printed: backend/app/reports/template.py.
use call_audit_supervisor.Common.{◌≡◌, refl, true, List, [], ◌∷◌}
use call_audit_supervisor.Common.Codes.{Text, codes}
use call_audit_supervisor.Judge.Schema.{Json, str, arr, obj, no_items, item, no_fields, field, elem}
use call_audit_supervisor.Reports.Template.{
  Token, text, var, section, inverted, close, lookup, escaped, escape_char, render_tokens,
}
use call_audit_supervisor.Reports.Template.Escaped.{IsWoven, render_tokens-escaped}

abbrev unread : Json → Text
unread v = []

abbrev own_texts : List Text
own_texts = codes "<li>" ∷ codes "</li>" ∷ codes "<p>none</p>" ∷ []

-- `{{#items}}<li>{{.}}</li>{{/items}}{{^items}}<p>none</p>{{/items}}`
abbrev listing : List Token
listing =
    section (codes "items")
    ∷ text (codes "<li>")
    ∷ var (codes ".")
    ∷ text (codes "</li>")
    ∷ close (codes "items")
    ∷ inverted (codes "items")
    ∷ text (codes "<p>none</p>")
    ∷ close (codes "items")
    ∷ []

abbrev two_items : Json
two_items = obj (
    field (codes "items") (arr (item (str (codes "a<b")) (item (str (codes "c")) no_items)))
      no_fields)

listing_prints : render_tokens unread listing two_items ≡ codes "<li>a&lt;b</li><li>c</li>"
unfolding render_tokens escaped escape_char lookup
listing_prints = refl

empty_prints :
    render_tokens unread listing (obj (field (codes "items") (arr no_items) no_fields))
    ≡ codes "<p>none</p>"
unfolding render_tokens escaped escape_char lookup
empty_prints = refl

render_tokens-escaped_example :
    IsWoven (λ s. elem s own_texts ≡ true) (render_tokens unread listing two_items)
render_tokens-escaped_example =
    render_tokens-escaped (λ s. elem s own_texts ≡ true) unread listing two_items
      (tt, (refl, (tt, (refl, (tt, (tt, (refl, (tt, tt))))))))
