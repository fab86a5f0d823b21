-- ===== src/Web/I18n/Script.antt =====
-- internal/web/i18n.go: `jsMessages` and `parseTemplates`.
use swosh.Common.{
  ◌≡◌, refl, ap, ◌∙◌, inl, inr, Bool, true, false, ◌&&◌, Option, none, some, List, [], ◌∷◌, ◌++◌,
  ◌==◌, eq_iff, if◌then◌else◌, Bool-cases, Option-cases,
}
use Prim.Native.String.{String, ◌++◌ as ◌<>◌}
use swosh.Common.Text.Prefix.{cut_prefix, cut_prefix-append, cut_prefix_sound}
use swosh.Web.I18n.{Lang, english, swedish, langs, translation_in, find_message, format, tr}
use swosh.Web.I18n.Messages.{Translation, messages}
use swosh.Web.Http.{Request}
use swosh.Web.Server.{
  Theme, system_theme, light_theme, dark_theme, request_theme, Server, request_lang,
}

abbrev pub js_prefix : String
js_prefix = "js."

-- The loop of `jsMessages`; a message whose key has the prefix is added under the rest of it.
abbrev with_message : Option String → String → List (String × String) → List (String × String)
with_message none text out = out
with_message (some name) text out = (name, text) ∷ out

unfoldable pub js_among : Lang → List (String × Translation) → List (String × String)
unfolding cut_prefix
js_among l [] = []
js_among l ((k, m) ∷ rest) =
    with_message (cut_prefix k js_prefix) (translation_in l m) (js_among l rest)

unfoldable pub js_messages : Lang → List (String × String)
unfolding js_among messages
js_messages l = js_among l messages

-- A set of templates: what `lang`, `theme` and `js` give in it, and by which language `t` works.
pub record TemplateSet : Type 0 where
  pub lang : Lang
  pub theme : Theme
  pub js : List (String × String)

abbrev pub themes : List Theme
themes = system_theme ∷ light_theme ∷ dark_theme ∷ []

abbrev sets_for : Lang → List Theme → List TemplateSet
unfolding js_messages
sets_for l [] = []
sets_for l (th ∷ ths) = record { lang = l; theme = th; js = js_messages l } ∷ sets_for l ths

abbrev sets_of : List Lang → List TemplateSet
unfolding sets_for
sets_of [] = []
sets_of (l ∷ ls) = sets_for l themes ++ sets_of ls

unfoldable pub parse_templates : List TemplateSet
unfolding sets_of
parse_templates = sets_of langs

abbrev same_lang : Lang → Lang → Bool
same_lang english english = true
same_lang swedish swedish = true
same_lang _ _ = false

abbrev same_theme : Theme → Theme → Bool
same_theme system_theme system_theme = true
same_theme light_theme light_theme = true
same_theme dark_theme dark_theme = true
same_theme _ _ = false

-- `s.tmpl[look{l, th}]`
unfoldable pub set_for : Lang → Theme → List TemplateSet → Option TemplateSet
set_for l th [] = none
set_for l th (t ∷ ts) =
    if same_lang t.lang l && same_theme t.theme th then some t else set_for l th ts

unfoldable pub find_text : String → List (String × String) → Option String
find_text name [] = none
find_text name ((k, text) ∷ rest) = if k == name then some text else find_text name rest

other_key : (k name : String) → cut_prefix k js_prefix ≡ none → k == ◌<>◌ js_prefix name ≡ false
other_key k name other = elim (Bool-cases (k == ◌<>◌ js_prefix name)) [
  | inl same ↦ absurd (
      cc (
        other,
        cut_prefix-append js_prefix name,
        ap (λ t. cut_prefix t js_prefix) ((eq_iff k (◌<>◌ js_prefix name)).0 same),
      ))
  | inr differs ↦ differs
]

same_key :
    (k name found : String)
    → cut_prefix k js_prefix ≡ some found
    → k == ◌<>◌ js_prefix name ≡ found == name
same_key k name found e = elim (Bool-cases (found == name)) [
  | inl same ↦ rw same (
      (eq_iff k (◌<>◌ js_prefix name)).1
        (cut_prefix_sound k js_prefix found e ∙ ap (◌<>◌ js_prefix) ((eq_iff found name).0 same)))
  | inr other ↦ rw other (elim (Bool-cases (k == ◌<>◌ js_prefix name)) [
    | inr differs ↦ differs
    | inl same ↦
        let found_name : found ≡ name = cc (
          e,
          cut_prefix-append js_prefix name,
          ap (λ t. cut_prefix t js_prefix) ((eq_iff k (◌<>◌ js_prefix name)).0 same),
        ) in
        absurd (cc (other, (eq_iff found name).1 found_name))
  ])
]

-- The script's message under a name is the one with the prefix and the name for a key.
js_among-find :
    (l : Lang) (name : String) (table : List (String × Translation))
    → find_text name (js_among l table) ≡ format l [] (find_message (◌<>◌ js_prefix name) table)
unfolding js_among find_text find_message
js_among-find l name [] = refl
js_among-find l name ((k, m) ∷ rest) = elim (Option-cases (cut_prefix k js_prefix)) [
  | inl other ↦ rw (other, other_key k name other) (js_among-find l name rest)
  | inr (found, e) ↦
      rw (e, same_key k name found e)
        (elim (Bool-cases (found == name)) [
          | inl same ↦ rw same refl
          | inr differs ↦ rw differs (js_among-find l name rest)
        ])
]

js_messages-find :
    (l : Lang) (name : String) → find_text name (js_messages l) ≡ tr l (◌<>◌ js_prefix name) []
unfolding js_messages tr
js_messages-find l name = js_among-find l name messages

-- A set of templates for a language and a theme, whose script has the texts of that language.
pub record IsLook (l : Lang) (th : Theme) (t : TemplateSet) : Type 0 where
  pub lang : t.lang ≡ l
  pub theme : t.theme ≡ th
  pub script : (name : String) → find_text name t.js ≡ tr l (◌<>◌ js_prefix name) []

set_for-IsLook :
    (l : Lang) (th : Theme)
    → (t : TemplateSet) × (set_for l th parse_templates ≡ some t) × IsLook l th t
unfolding parse_templates set_for
set_for-IsLook l th = (
  record { lang = l; theme = th; js = js_messages l },
  there l th,
  record { lang = refl; theme = refl; script = js_messages-find l },
)
  where
    there :
        (l : Lang) (th : Theme)
        → set_for l th parse_templates ≡ some (record { lang = l; theme = th; js = js_messages l })
    there english system_theme = refl
    there english light_theme = refl
    there english dark_theme = refl
    there swedish system_theme = refl
    there swedish light_theme = refl
    there swedish dark_theme = refl

-- For every request there is a set of templates for its language and its theme, and the script's
-- message under a name is in it exactly if there is a message with the prefix and the name for its
-- key, and is the one in that language.
pub request-IsLook :
    (s : Server) (r : Request)
    → (t : TemplateSet) × (set_for (request_lang s r) (request_theme r) parse_templates ≡ some t)
      × IsLook (request_lang s r) (request_theme r) t
request-IsLook s r = set_for-IsLook (request_lang s r) (request_theme r)
