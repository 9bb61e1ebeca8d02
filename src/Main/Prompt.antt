-- ===== src/Main/Prompt.antt =====
-- The prompts of src/main.rs. The lines that the user enters are a list, one for each prompt; a
-- prompt after the last line fails, and its `unwrap` panics.
use mwixnet.Base.{
  sym, ap, append-nil, ◌≡◌, ◌≢◌, refl, ◌∙◌, List, [], ◌∷◌, ◌++◌, All, Option, none, some, ok, panic,
  ite, if_pos, if_neg,
}
use mwixnet.Base.Exec.{Exec}
use mwixnet.Ext.{Crates}
use mwixnet.Ext.Files.{Files}
use mwixnet.Ext.System.{System, SystemLaws, Literal}

-- The lines of a list of entries with their confirmations.
unfoldable pub flat : {A : Type 0} → List (A × A) → List A
flat [] = []
flat (p ∷ ps) = p.0 ∷ p.1 ∷ flat ps

module _ {E : Type 0} (x : Crates) (f : Files) (s : System x f) where
  -- `rpassword::prompt_password_stdout(…).unwrap()`, and `prompt_password`
  unfoldable pub prompt : Exec (List f.Text) E f.Text
  prompt [] = (panic, [])
  prompt (line ∷ lines) = (ok line, lines)

  -- The loop of `prompt_password_confirm`, from the values of `first` and `second`.
  unfoldable pub confirm_loop : f.Text → f.Text → Exec (List f.Text) E f.Text
  confirm_loop first second [] = ite (s.text_dec first second) (ok first, []) (panic, [])
  confirm_loop first second (a ∷ []) = ite (s.text_dec first second) (ok first, a ∷ []) (panic, [])
  confirm_loop first second (a ∷ b ∷ lines) =
      let rest = confirm_loop a b lines in
      ite (s.text_dec first second) (ok first, a ∷ b ∷ lines) rest

  unfoldable pub prompt_password_confirm : Exec (List f.Text) E f.Text
  unfolding confirm_loop
  prompt_password_confirm =
      confirm_loop (s.literal Literal.first_text) (s.literal Literal.second_text)

  unfoldable pub prompt_wallet_password : Option f.Text → Exec (List f.Text) E f.Text
  unfolding prompt
  prompt_wallet_password (some wallet_pass) lines = (ok wallet_pass, lines)
  prompt_wallet_password none lines = prompt lines

  -- Two equal entries end the loop, whatever lines are left.
  confirm_loop_same : (p : f.Text) (lines : List f.Text) → confirm_loop p p lines ≡ (ok p, lines)
  unfolding confirm_loop
  confirm_loop_same p [] = if_pos (s.text_dec p p) refl _ _
  confirm_loop_same p (a ∷ []) = if_pos (s.text_dec p p) refl _ _
  confirm_loop_same p (a ∷ b ∷ lines) = if_pos (s.text_dec p p) refl _ _

  -- After entries that differ, the loop stands at two texts that differ.
  confirm_loop-flat :
      (first second : f.Text) (ps : List (f.Text × f.Text)) (lines : List f.Text)
      → first ≢ second
      → All (λ (q : f.Text × f.Text). q.0 ≢ q.1) ps
      → (a : f.Text) × (b : f.Text) × (a ≢ b)
        × (confirm_loop first second (flat ps ++ lines) ≡ confirm_loop a b lines)
  unfolding confirm_loop flat
  confirm_loop-flat first second [] lines n h = (first, second, n, refl)
  confirm_loop-flat first second (q ∷ ps) lines n h =
      let (a, b, m, e) = confirm_loop-flat q.0 q.1 ps lines h.0 h.1 in
      (a, b, m, if_neg (s.text_dec first second) n _ _ ∙ e)

  -- The confirmation ends at the first password that is entered the same twice: after any number of
  -- entries that differ from their confirmation, it returns that password and has read no line
  -- beyond it; and where the lines end before that, it panics.
  pub prompt_password_confirm-Ends :
      SystemLaws x f s
      → (ps : List (f.Text × f.Text)) → All (λ (q : f.Text × f.Text). q.0 ≢ q.1) ps
      → ((p : f.Text) (rest : List f.Text)
          → prompt_password_confirm (flat ps ++ (p ∷ p ∷ rest)) ≡ (ok p, rest))
        × (prompt_password_confirm (flat ps) ≡ (panic, []))
        × ((a : f.Text) → prompt_password_confirm (flat ps ++ (a ∷ [])) ≡ (panic, []))
  unfolding prompt_password_confirm confirm_loop
  prompt_password_confirm-Ends L ps h = (
    λ p rest.
        let (a, b, m, e) = confirm_loop-flat _ _ ps (p ∷ p ∷ rest) L.first_second h in
        e ∙ if_neg (s.text_dec a b) m _ _ ∙ confirm_loop_same p rest,
    let (a, b, m, e) = confirm_loop-flat _ _ ps [] L.first_second h in
        ap prompt_password_confirm (sym (append-nil (flat ps))) ∙ e ∙ if_neg (s.text_dec a b) m _ _,
    λ c.
        let (a, b, m, e) = confirm_loop-flat _ _ ps (c ∷ []) L.first_second h in
        e ∙ if_neg (s.text_dec a b) m _ _,
  )
