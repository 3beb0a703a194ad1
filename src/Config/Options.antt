-- ===== src/Config/Options.antt =====
-- Options described one by one, with no regard to the order in which a handler tries their names.
use pdns_logger.Base.{
  Bool, true, false, not, ◌&&◌, List, [], ◌∷◌, ◌++◌, Option, ◌≡◌, refl, ◌∙◌, if◌then◌else◌,
}
use pdns_logger.Config.{Entry, unusable, string, is}
use pdns_logger.Text.Compare.{text_eq, strn_eq_right}
use pdns_logger.Text.{Text}

-- The entry gives a value to option `name` of section `section`.
abbrev pub sets : Text → Text → Entry → Bool
sets section name e =
    not (unusable e) && (text_eq (string e.section) section && text_eq (string e.name) name)

-- What an option comes to: each entry that sets it replaces its value by that of the entry.
module _ {ℓ} {A : Type ℓ} (section name : Text) (read : Text → A) where
  unfoldable pub setting : List Entry → A → A
  setting [] a = a
  setting (e ∷ es) a = setting es (if sets section name e then read (string e.value) else a)

  abbrev pub None : List Entry → Type 0
  None [] = Unit {0}
  None (e ∷ es) = (sets section name e ≡ false) × None es

  setting-None : (es : List Entry) (a : A) → None es → setting es a ≡ a
  unfolding setting
  setting-None [] a h = refl
  setting-None (e ∷ es) a h = rw h.0 (setting-None es a h.1)

  -- The last entry that sets an option decides it.
  pub setting-last :
      (es : List Entry) (e : Entry) (rest : List Entry) (a : A)
      → sets section name e ≡ true
      → None rest
      → setting (es ++ e ∷ rest) a ≡ read (string e.value)
  unfolding setting
  setting-last [] e rest a h k = setting-None rest _ k ∙ rw h
  setting-last (d ∷ es) e rest a h k = setting-last es e rest _ h k

pub is-text_eq : (s : Option Text) (literal : Text) → is s literal ≡ text_eq (string s) literal
unfolding is
is-text_eq s literal = strn_eq_right (string s) literal
