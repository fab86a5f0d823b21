-- ===== src/Web/I18n/Messages.antt =====
-- internal/web/i18n.go: the texts of the public pages and of the API's error reasons.
use swosh.Common.{String, List, [], ◌∷◌}

pub record Translation : Type 0 where
  pub en : String
  pub sv : String

abbrev entry : String → String → String → String × Translation
entry key en sv = (key, record { en = en; sv = sv })

unfoldable pub messages : List (String × Translation)
messages =
    entry "og.locale" "en_GB" "sv_SE"
    ∷ entry "footer.source" "Swosh is open source on" "Swosh är öppen källkod på"
    ∷ entry "footer.notswish" "Swosh is an independent service, not part of Swish."
        "Swosh är en fristående tjänst och inte en del av Swish."
    ∷ entry "lang.switch" "Svenska" "English"
    ∷ entry "lang.switch.code" "sv" "en"
    ∷ entry "theme.light" "Light" "Ljust"
    ∷ entry "theme.dark" "Dark" "Mörkt"
    ∷ entry "github.title" "Swosh on GitHub" "Swosh på GitHub"
    ∷ entry "create.link" "Create a link" "Skapa en länk"
    ∷ entry "index.title" "Swosh – payment links for Swish" "Swosh – betallänkar för Swish"
    ∷ entry "index.description"
        "Make a short link that opens Swish with your number, the amount and a message filled in."
        "Gör en kort länk som öppnar Swish med ditt nummer, beloppet och ett meddelande ifyllt."
    ∷ entry "index.eyebrow" "Payment links for Swish" "Betallänkar för Swish"
    ∷ entry "index.heading" "Get paid back" "Få tillbaka pengarna"
    ∷ entry "index.heading.accent" "in one tap" "med ett tryck"
    ∷ entry "index.lead.before" "Make a short link that opens" "Gör en kort länk som öppnar"
    ∷ entry "index.lead.after"
        "with your number, the amount and a message filled in. Send it to your friends: they tap it and confirm."
        "med ditt nummer, beloppet och ett meddelande ifyllt. Skicka den till dina vänner: de trycker på den och bekräftar."
    ∷ entry "index.payswith"
        "Your friends pay with Swish, in their own Swish app. Swosh only makes the link."
        "Dina vänner betalar med Swish, i sin egen Swish-app. Swosh gör bara länken."
    ∷ entry "form.phone" "Swish number" "Swish-nummer"
    ∷ entry "form.phone.clear" "Clear the number" "Töm numret"
    ∷ entry "form.recent" "Recent" "Senaste"
    ∷ entry "form.amount" "Amount" "Belopp"
    ∷ entry "form.message" "Message" "Meddelande"
    ∷ entry "form.message.hint" "What's it for? (optional)" "Vad gäller det? (valfritt)"
    ∷ entry "form.message.hint.required" "What's it for?" "Vad gäller det?"
    ∷ entry "form.message.clear" "Clear the message" "Töm meddelandet"
    ∷ entry "form.advanced" "Advanced" "Avancerat"
    ∷ entry "form.expire" "Link expires after" "Länken slutar gälla efter"
    ∷ entry "form.expire.10m" "10 minutes" "10 minuter"
    ∷ entry "form.expire.30m" "30 minutes" "30 minuter"
    ∷ entry "form.expire.1h" "1 hour" "1 timme"
    ∷ entry "form.expire.12h" "12 hours" "12 timmar"
    ∷ entry "form.expire.1d" "1 day" "1 dag"
    ∷ entry "form.expire.1w" "1 week" "1 vecka"
    ∷ entry "form.expire.1mo" "1 month" "1 månad"
    ∷ entry "form.expire.6mo" "6 months" "6 månader"
    ∷ entry "form.expire.never" "Never" "Aldrig"
    ∷ entry "form.editable" "Can be changed in Swish" "Kan ändras i Swish"
    ∷ entry "form.editable.number" "Number" "Nummer"
    ∷ entry "form.editable.amount" "Amount" "Belopp"
    ∷ entry "form.editable.message" "Message" "Meddelande"
    ∷ entry "form.editable.hint" "The payer can change these before paying. The rest is locked."
        "Den som betalar kan ändra dessa innan betalningen. Resten är låst."
    ∷ entry "form.reset" "Clear" "Töm"
    ∷ entry "form.reset.title" "Clear the form" "Töm formuläret"
    ∷ entry "form.error" "Couldn't create the link" "Kunde inte skapa länken"
    ∷ entry "result.ready" "Your link is ready" "Din länk är klar"
    ∷ entry "result.copy" "Copy" "Kopiera"
    ∷ entry "result.share" "Share" "Dela"
    ∷ entry "result.preview" "Preview" "Förhandsvisa"
    ∷ entry "steps.fill" "Fill in the details" "Fyll i uppgifterna"
    ∷ entry "steps.fill.text" "Your Swish number, the amount and what it's for."
        "Ditt Swish-nummer, beloppet och vad det gäller."
    ∷ entry "steps.share" "Share the link" "Dela länken"
    ∷ entry "steps.share.text" "Drop it in the group chat, a text or an email."
        "Släng in den i gruppchatten, ett sms eller ett mejl."
    ∷ entry "steps.pay" "They tap and pay" "De trycker och betalar"
    ∷ entry "steps.pay.text"
        "Swish opens with everything filled in. On a computer, they scan a QR code instead."
        "Swish öppnas med allt ifyllt. På en dator skannar de en QR-kod i stället."
    ∷ entry "js.forget" "Forget this number" "Glöm det här numret"
    ∷ entry "js.forgetNumber" "Forget {0}" "Glöm {0}"
    ∷ entry "js.expiresAfter" "Expires after {0}" "Slutar gälla efter {0}"
    ∷ entry "js.neverExpires" "Never expires" "Slutar aldrig gälla"
    ∷ entry "js.nothingEditable" "nothing editable" "inget kan ändras"
    ∷ entry "js.editable" "{0} editable" "{0} kan ändras"
    ∷ entry "js.and" "&" "&"
    ∷ entry "js.missing" "Fill in the Swish number and the amount."
        "Fyll i Swish-numret och beloppet."
    ∷ entry "js.tooMuch" "You can Swish at most {0} kr." "Du kan swisha högst {0} kr."
    ∷ entry "js.wholeKronor" "The amount must be a whole number of kronor, at least 1."
        "Beloppet måste vara ett helt antal kronor, minst 1."
    ∷ entry "js.failed" "Something went wrong ({0})." "Något gick fel ({0})."
    ∷ entry "js.offline" "Could not reach Swosh. Check your connection and try again."
        "Kunde inte nå Swosh. Kontrollera din anslutning och försök igen."
    ∷ entry "js.expiresIn" "This link expires in {0}, on {1}."
        "Länken slutar gälla om {0}, den {1}."
    ∷ entry "js.neverExpiresLong" "This link never expires." "Länken slutar aldrig gälla."
    ∷ entry "js.copied" "Copied!" "Kopierad!"
    ∷ entry "js.copy" "Copy" "Kopiera"
    ∷ entry "preview.og.title" "Swish %dkr to %s" "Swisha %d kr till %s"
    ∷ entry "preview.og.nomessage" "No message given..." "Inget meddelande..."
    ∷ entry "preview.title" "Swish %d kr to %s · Swosh" "Swisha %d kr till %s · Swosh"
    ∷ entry "preview.eyebrow" "Payment request" "Betalningsförfrågan"
    ∷ entry "preview.to" "To" "Till"
    ∷ entry "preview.message" "Message" "Meddelande"
    ∷ entry "preview.expires" "Link expires" "Länken slutar gälla"
    ∷ entry "preview.never" "Never" "Aldrig"
    ∷ entry "preview.pay" "Pay with Swish" "Betala med Swish"
    ∷ entry "preview.hint" "You check and confirm the payment in Swish."
        "Du kontrollerar och bekräftar betalningen i Swish."
    ∷ entry "preview.hint.editable"
        "You check and confirm the payment in Swish, where you can change %s."
        "Du kontrollerar och bekräftar betalningen i Swish, där du kan ändra %s."
    ∷ entry "preview.qr.alt" "QR code to scan with Swish" "QR-kod att skanna med Swish"
    ∷ entry "preview.qr" "On a computer? Open Swish on your phone and scan the code."
        "Sitter du vid en dator? Öppna Swish i telefonen och skanna koden."
    ∷ entry "preview.own" "Want to get paid back too?" "Vill du också få tillbaka pengar?"
    ∷ entry "preview.own.link" "Make your own Swosh link" "Gör din egen Swosh-länk"
    ∷ entry "editable.number" "the number" "numret"
    ∷ entry "editable.amount" "the amount" "beloppet"
    ∷ entry "editable.message" "the message" "meddelandet"
    ∷ entry "editable.and" "and" "och"
    ∷ entry "notfound.title" "Link not found" "Länken finns inte"
    ∷ entry "notfound.text"
        "This Swosh link doesn't exist or has expired. Ask whoever sent it for a new one."
        "Den här Swosh-länken finns inte eller har slutat gälla. Be den som skickade den om en ny."
    ∷ entry "notfound.new" "Create a new Swosh" "Skapa en ny Swosh"
    ∷ entry "login.title" "Sign in" "Logga in"
    ∷ entry "login.heading" "Admin sign in" "Logga in som admin"
    ∷ entry "login.text" "Sign in to manage Swosh links." "Logga in för att hantera Swosh-länkar."
    ∷ entry "login.loggedout" "You have been logged out." "Du har loggats ut."
    ∷ entry "login.bad" "Bad credentials" "Fel användarnamn eller lösenord"
    ∷ entry "login.username" "Username" "Användarnamn"
    ∷ entry "login.password" "Password" "Lösenord"
    ∷ entry "login.submit" "Sign in" "Logga in"
    ∷ entry "login.back" "Back to Swosh" "Tillbaka till Swosh"
    ∷ entry "logout.title" "Log out" "Logga ut"
    ∷ entry "logout.heading" "Log out?" "Logga ut?"
    ∷ entry "logout.text" "You will have to sign in again to get back to the admin pages."
        "Du måste logga in igen för att komma tillbaka till adminsidorna."
    ∷ entry "logout.back" "Back" "Tillbaka"
    ∷ entry "logout.submit" "Log out" "Logga ut"
    ∷ entry "api.badinput" "Invalid input format!" "Kunde inte läsa förfrågan."
    ∷ entry "api.failed" "Unable to generate Swosh!" "Kunde inte skapa länken."
    ∷ entry "api.missing" "Missing input parameters. 'phone' and 'amount' is required"
        "Swish-nummer och belopp måste fyllas i."
    ∷ entry "api.min" "Minimum allowed amount is 1. Got %d"
        "Beloppet måste vara minst 1 kr, inte %d."
    ∷ entry "api.max" "Maximum allowed amount is %d. Got %d"
        "Beloppet får vara högst %d kr, inte %d."
    ∷ entry "api.toolong" "Description is too long. Max %d chars. Got %d"
        "Meddelandet är för långt: högst %d tecken, men det har %d."
    ∷ entry "api.badphone" "'%s' is not a valid phone number"
        "'%s' är inte ett giltigt telefonnummer."
    ∷ entry "api.notmobile" "'%s' is not a mobile number" "'%s' är inte ett mobilnummer."
    ∷ entry "api.needmessage"
        "A message is required for links that expire after 6 months or more, or never"
        "Länkar som gäller i 6 månader eller längre, eller aldrig slutar gälla, måste ha ett meddelande."
    ∷ entry "api.badexpiry" "'expireAfterSeconds' must be between 0 and %d. Got %d"
        "'expireAfterSeconds' måste vara mellan 0 och %d, inte %d."
    ∷ []
