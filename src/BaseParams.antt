-- ===== src/BaseParams.antt =====
-- Python/00_baseparams.py: the names of the system and of its domains, from umbrella.xml.
pub mod Domains
pub mod Ldap
use umbrella_linux.Base.{
  Bool, true, false, List, [], ◌∷◌, ◌++◌, Option, none, some, Text, Result, ok, err,
  attribute_error, type_error, or_raise, fold_result, map_result, ◌>>=◌, map, ◌==◌, text_eq,
  option_eq, if◌then◌else◌, Exc,
}
use umbrella_linux.Base.Dict.{Dict, insert}
use umbrella_linux.Text.{codes, lower, upper, split, join}
use umbrella_linux.Text.Order.{sorted}
use umbrella_linux.Xml.{Dom, strip_text, find_text, has_child, child_text}

-- A name and its localization.
pub record Localized : Type 0 where
  pub name : Option Text
  pub name_local : Option Text

-- What the loop over the domains keeps: `domain_names`, `domain_notifies` and `domain_AXFR`. A name is
-- `None` where the element has no text.
pub record DomainLists : Type 0 where
  pub domain_names : List (Option Text)
  pub domain_notifies : Dict (Option Text) (List Text)
  pub domain_axfr : Dict (Option Text) (List Text)

abbrev pub no_domains : DomainLists
no_domains = record { domain_names = []; domain_notifies = []; domain_axfr = [] }

-- `if len(l)>0: d[name]=l`
unfoldable pub insert_some :
    Option Text → List Text → Dict (Option Text) (List Text) → Dict (Option Text) (List Text)
insert_some name [] dict = dict
insert_some name (x ∷ l) dict = insert name (x ∷ l) dict

-- `sorted` on names: a single one is not compared, and None cannot be compared.
unfoldable pub sort_names : List (Option Text) → Result (List (Option Text))
sort_names (none ∷ []) = ok (none ∷ [])
sort_names l = do names ← map_result (or_raise type_error) l; ok (map some (sorted names))

-- `ldap_root`: the components of the domain name.
unfoldable pub ldap_root : Text → Text
ldap_root domain_name = join b',' (map (λ dc. codes "dc=" ++ dc) (split b'.' domain_name))

-- `realm_name`
abbrev pub realm_name : Text → Text
realm_name = upper

module _ (d : Dom) where
  -- A name that has to be there, and its localization, which is the name itself if it is missing.
  unfoldable pub read_localized : d.Element → Text → Text → Result Localized
  unfolding find_text
  read_localized root tag tag_local = do
    name ← find_text d root tag
    ok (record {
      name = name;
      name_local = (elim (d.find root tag_local) [ none ↦ name | some e ↦ d.text e ]);
    })

  -- The department's name may be missing.
  unfoldable pub read_department : d.Element → Localized
  unfolding child_text
  read_department root =
      let name = child_text d root (codes "dept_name") in
      record {
        name = name;
        name_local = (elim (d.find root (codes "dept_name_local")) [
          | none ↦ name
          | some e ↦ d.text e
        ]);
      }

  -- `language` and `timezone`, which have a default.
  unfoldable pub read_default : d.Element → Text → Text → Option Text
  read_default root tag default = elim (d.find root tag) [ none ↦ some default | some e ↦ d.text e ]

  -- `[x.text.strip() for x in e.findall(tag)]`
  unfoldable pub stripped_texts : d.Element → Text → Result (List Text)
  stripped_texts e tag = map_result (λ x. strip_text (d.text x)) (d.findall e tag)

  -- A domain that the system is the master of.
  unfoldable pub note_domain : DomainLists → d.Element → Result DomainLists
  unfolding find_text stripped_texts insert_some
  note_domain s e = do
    name ← find_text d e (codes "name")
    notifies ← stripped_texts e (codes "notify")
    axfrs ← stripped_texts e (codes "AXFRallow")
    ok (record {
      domain_names = s.domain_names ++ (name ∷ []);
      domain_notifies = insert_some name notifies s.domain_notifies;
      domain_axfr = insert_some name axfrs s.domain_axfr;
    })

  -- One round of the loop over the domains; the system is not the master of those with a `master`.
  unfoldable pub read_domain : DomainLists → d.Element → Result DomainLists
  unfolding has_child note_domain
  read_domain s e = if has_child d e (codes "master") then ok s else note_domain s e

  unfoldable pub read_domains : d.Element → Result DomainLists
  unfolding read_domain sort_names
  read_domains root = do
    s ← fold_result read_domain no_domains (d.findall root (codes "domain"))
    names ← sort_names s.domain_names
    ok (record {
      domain_names = names;
      domain_notifies = s.domain_notifies;
      domain_axfr = s.domain_axfr;
    })

  -- `domain_name`
  unfoldable pub read_domain_name : d.Element → Result Text
  unfolding find_text
  read_domain_name root = do
    e ← or_raise attribute_error (d.find root (codes "domain"))
    t ← find_text d e (codes "name")
    s ← or_raise attribute_error t
    ok (lower s)

  -- `install_zabbix`, `upstream_proxy` and `admins`
  abbrev pub install_zabbix : d.Element → Bool
  install_zabbix root = has_child d root (codes "install_zabbix")

  abbrev pub upstream_proxy : d.Element → Option Text
  upstream_proxy root = child_text d root (codes "upstream_proxy")

  unfoldable pub read_admins : d.Element → List (Option Text)
  read_admins root = map d.text (d.findall root (codes "admin"))
