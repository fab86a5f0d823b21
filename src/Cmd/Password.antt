-- ===== src/Cmd/Password.antt =====
-- Passwords that `readPassword` of cmd/swosh/cmd_admin.go reads from a pipe.
use swosh.Common.{
  code, ◌≡◌, refl, ◌≢◌, inl, inr, Bool, true, false, not, arith, ◌==◌, eq_iff, eqb, Bool-cases, ok,
}
use Prim.Native.String.{String}
use text.Mathlib.TextLemmas.{nil-append, cons-append}
use swosh.Common.Text.{every, trim_right-append}
use swosh.Cmd.{piped, through_newline, is_line_end, read_password}
use Prim.Native.String.{◌++◌ as ◌<>◌}

through_newline-append :
    (p rest : String)
    → every (λ c. not (eqb c b'\n')) p ≡ true
    → through_newline (◌<>◌ p (String.◌∷◌ "\n" rest)) ≡ (◌<>◌ p "\n", true)
unfolding through_newline
through_newline-append String.[] rest h = rw nil-append refl
through_newline-append (String.◌∷◌ c p) rest h =
    rw (cons-append c p (String.◌∷◌ "\n" rest), cons-append c p "\n")
      (elim (Bool-cases (eqb (code c) b'\n')) [
        | inl end ↦ absurd (ground arith)
        | inr inside ↦
            let kept : every (λ c. not (eqb c b'\n')) p ≡ true = ground arith in
            rw (inside, through_newline-append p rest kept) refl
      ])

no_newline :
    (p : String)
    → every (λ c. not (is_line_end c)) p ≡ true
    → every (λ c. not (eqb c b'\n')) p ≡ true
no_newline String.[] h = refl
no_newline (String.◌∷◌ c p) h = ground (arith, no_newline p)

eq_false : (p : String) → p ≢ "" → (p == "") ≡ false
eq_false p h = ground (arith, eq_iff p "")

-- From a pipe, `readPassword` reads what stands before the first newline, whatever follows, if
-- that is not empty and has no line break in it.
pub read_password-line :
    (p rest : String) (fails : Bool)
    → p ≢ ""
    → every (λ c. not (is_line_end c)) p ≡ true
    → read_password (piped (◌<>◌ p (String.◌∷◌ "\n" rest)) fails) ≡ ok p
unfolding read_password
read_password-line p rest fails some_text h =
    rw (through_newline-append p rest (no_newline p h))
      (rw (trim_right-append is_line_end p "\n" h refl) (rw (eq_false p some_text) refl))
