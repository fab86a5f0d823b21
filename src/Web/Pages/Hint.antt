-- ===== src/Web/Pages/Hint.antt =====
-- Which fields the hint of the preview in internal/web/web.go names.
use swosh.Common.{String, ◌≡◌, refl, Bool, true, false, Option, none, some}
use swosh.Db.{Swosh}
use swosh.Common.Text.{has_text}
use swosh.Web.I18n.{Lang, english, swedish}
use swosh.Web.Pages.{editable_fields, preview_hint}

-- The words of a language for a field.
abbrev number_in : Lang → String
number_in english = "number"
number_in swedish = "numret"

abbrev amount_in : Lang → String
amount_in english = "amount"
amount_in swedish = "beloppet"

abbrev message_in : Lang → String
message_in english = "message"
message_in swedish = "meddelandet"

-- The text names the number, the amount and the message as these may be changed or not.
abbrev pub IsHint : Lang → Bool → Bool → Bool → String → Type 0
IsHint l payee amount message text =
    (has_text text (number_in l) ≡ payee)
    × (has_text text (amount_in l) ≡ amount)
    × (has_text text (message_in l) ≡ message)

abbrev pub Hints : Swosh → Lang → Option String → Type 0
Hints sw l none = ⊥
Hints sw l (some text) = IsHint l sw.payee_editable sw.amount_editable sw.message_editable text

abbrev with_flags : Bool → Bool → Bool → Swosh → Swosh
with_flags p a m sw = record sw { payee_editable = p; amount_editable = a; message_editable = m }

flags-Hints :
    (l : Lang) (p a m : Bool) (sw : Swosh)
    → Hints (with_flags p a m sw) l (preview_hint (with_flags p a m sw) l)
unfolding preview_hint editable_fields
flags-Hints english false false false sw = (refl, refl, refl)
flags-Hints english true false false sw = (refl, refl, refl)
flags-Hints english false true false sw = (refl, refl, refl)
flags-Hints english true true false sw = (refl, refl, refl)
flags-Hints english false false true sw = (refl, refl, refl)
flags-Hints english true false true sw = (refl, refl, refl)
flags-Hints english false true true sw = (refl, refl, refl)
flags-Hints english true true true sw = (refl, refl, refl)
flags-Hints swedish false false false sw = (refl, refl, refl)
flags-Hints swedish true false false sw = (refl, refl, refl)
flags-Hints swedish false true false sw = (refl, refl, refl)
flags-Hints swedish true true false sw = (refl, refl, refl)
flags-Hints swedish false false true sw = (refl, refl, refl)
flags-Hints swedish true false true sw = (refl, refl, refl)
flags-Hints swedish false true true sw = (refl, refl, refl)
flags-Hints swedish true true true sw = (refl, refl, refl)

-- The hint of every link is there in each language, and has the words for the number, the amount
-- and the message exactly where these may be changed.
pub preview_hint-Hints : (sw : Swosh) (l : Lang) → Hints sw l (preview_hint sw l)
preview_hint-Hints sw l = flags-Hints l sw.payee_editable sw.amount_editable sw.message_editable sw
