-- ===== src/Xml.antt =====
-- Parsed XML, as the scripts read it: the elements of `lxml`, which is not part of the repository,
-- are a type with the operations that the scripts call.
use umbrella_linux.Base.{
  ℕ, ◌<◌, ◌≡◌, List, Option, none, some, Text, Result, ok, err, attribute_error, or_raise, ◌>>=◌,
  All, Bool, true, false, Exc,
}
use umbrella_linux.Text.{strip}
use mathlib.Core.List.{head?}

pub record Dom : Type 1 where
  pub Element : Type 0
  pub tag : Element → Text
  -- `e.text`, which is `None` for an element with no text
  pub text : Element → Option Text
  -- `e.get(name)`
  pub attribute : Element → Text → Option Text
  -- `e.find(name)`: the first child of that tag
  pub find : Element → Text → Option Element
  -- `e.findall(name)`: the children of that tag, in document order
  pub findall : Element → Text → List Element
  -- `e.iter(name)`: the element and its descendants of that tag, in document order
  pub iter : Element → Text → List Element
  -- `e.iter(*names)`: the same for several tags
  pub iter_any : Element → List Text → List Element

-- What the scripts rely on: an element tree is finite, and `find` is the first of `findall`.
pub record IsTree (d : Dom) : Type 0 where
  pub height : d.Element → ℕ
  pub findall_lower :
      (e : d.Element) (name : Text) → All (λ x. height x < height e) (d.findall e name)
  pub find_first : (e : d.Element) (name : Text) → d.find e name ≡ head? (d.findall e name)

-- `x.strip()` where `x` may be `None`.
abbrev pub strip_text : Option Text → Result Text
strip_text none = err attribute_error
strip_text (some s) = ok (strip s)

module _ (d : Dom) where
  -- `e.find(name).text`
  unfoldable pub find_text : d.Element → Text → Result (Option Text)
  find_text e name = elim (d.find e name) [ none ↦ err attribute_error | some x ↦ ok (d.text x) ]

  -- `e.find(name).text` where the code goes on as if it were a text.
  unfoldable pub find_str : Exc → d.Element → Text → Result Text
  unfolding find_text
  find_str x e name = do t ← find_text e name; or_raise x t

  -- `e.find(name) is not None`
  unfoldable pub has_child : d.Element → Text → Bool
  has_child e name = elim (d.find e name) [ none ↦ false | some _ ↦ true ]

  -- `t = e.find(name)`, then `t.text` unless `t` is `None`.
  unfoldable pub child_text : d.Element → Text → Option Text
  child_text e name = elim (d.find e name) [ none ↦ none | some x ↦ d.text x ]
