-- ===== src/Tests/Tree.antt =====
-- A concrete element tree, for the tests: the operations of `Dom`, and that they make a tree.
use mathlib.Core.List.{head?}
use umbrella_linux.Base.{
  ℕ, suc, ◌+◌, ◌≤◌, ◌<◌, refl, List, [], ◌∷◌, ◌++◌, Option, none, some, Text, ◌==◌, text_eq,
  contains, if◌then◌else◌, arith, All,
}
use umbrella_linux.Base.Dict.{Dict, lookup}
use umbrella_linux.Xml.{Dom, IsTree}

-- Elements side by side: tag, text, attributes, children, and the elements behind.
pub data Forest : Type 0 where
  empty : Forest
  node : Text → Option Text → Dict Text Text → Forest → Forest → Forest

pub record Xml : Type 0 where
  pub tag : Text
  pub text : Option Text
  pub attributes : Dict Text Text
  pub children : Forest

unfoldable pub named : Text → Forest → List Xml
named name empty = []
named name (node tag text attributes children rest) =
    let more = named name rest in
    let e : Xml = record { tag = tag; text = text; attributes = attributes; children = children } in
    if tag == name then e ∷ more else more

unfoldable pub descendants : Text → Forest → List Xml
descendants name empty = []
descendants name (node tag text attributes children rest) =
    let below = descendants name children ++ descendants name rest in
    let e : Xml = record { tag = tag; text = text; attributes = attributes; children = children } in
    if tag == name then e ∷ below else below

unfoldable pub iter_named : Xml → Text → List Xml
unfolding descendants
iter_named e name =
    if e.tag == name then e ∷ descendants name e.children else descendants name e.children

unfoldable pub descendants_any : List Text → Forest → List Xml
descendants_any names empty = []
descendants_any names (node tag text attributes children rest) =
    let below = descendants_any names children ++ descendants_any names rest in
    let e : Xml = record { tag = tag; text = text; attributes = attributes; children = children } in
    if contains names tag then e ∷ below else below

unfoldable pub iter_any_named : Xml → List Text → List Xml
unfolding descendants_any
iter_any_named e names =
    if contains names e.tag
    then e ∷ descendants_any names e.children
    else descendants_any names e.children

abbrev pub size : Forest → ℕ
size empty = 0
size (node tag text attributes children rest) = suc (size children + size rest)

abbrev pub xml : Dom
xml = record {
  Element = Xml;
  tag = λ e. e.tag;
  text = λ e. e.text;
  attribute = λ e name. lookup name e.attributes;
  find = λ e name. head? (named name e.children);
  findall = λ e name. named name e.children;
  iter = iter_named;
  iter_any = iter_any_named;
}

pub named_lower :
    (name : Text) (f : Forest) (bound : ℕ)
    → size f ≤ bound
    → All (λ (x : Xml). size x.children < bound) (named name f)
unfolding named
named_lower name empty bound h = tt
named_lower name (node tag text attributes children rest) bound h =
    ground (arith, named_lower name rest bound (omega arith))

abbrev pub xml-IsTree : IsTree xml
xml-IsTree = record {
  height = λ e. size e.children;
  findall_lower = λ e name. named_lower name e.children (size e.children) (omega arith);
  find_first = λ e name. refl;
}

-- An element with a text, in front of others, and one with children.
abbrev pub leaf : Text → Text → Forest → Forest
leaf tag text rest = node tag (some text) [] empty rest

abbrev pub branch : Text → Forest → Forest → Forest
branch tag children rest = node tag none [] children rest

abbrev pub root_of : Forest → Xml
root_of children = record { tag = []; text = none; attributes = []; children = children }
