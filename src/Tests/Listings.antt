-- ===== src/Tests/Listings.antt =====
-- What the listings show.
use micro_conf.Text.Index.{last_index}
use micro_conf.Text.Order.{less}
use micro_conf.Text.Decimal.{pos, ℤ}
use micro_conf.Text.Bytes.{has_prefix, same, Bytes, codes}
use micro_conf.Samples.Memory.{memory}
use micro_conf.Dict.{lookup, Dict}
use micro_conf.Cfg.History.{list_namespaces, sort_newest}
use micro_conf.Cfg.Admin.{NamespaceEditHistory}
use micro_conf.Base.Outcome.{ok}
use micro_conf.App.Listeners.Namespaces.{get_namespaces}
use micro_conf.App.Info.{app_config_key}
use micro_conf.Base.{[], refl, ◌∷◌, ◌≡◌}

abbrev stored_names : Dict Bytes
stored_names =
    (app_config_key (codes "shop") (codes "default") (codes "web.yaml"), codes "a: 1")
    ∷ (app_config_key (codes "shop") (codes "default") (codes "db.props"), codes "b=2")
    ∷ (codes "app.cfg.future.shop.default.web.yaml", codes "a: 2")
    ∷ []

-- Two namespaces, one text.
listed :
    list_namespaces memory (codes "shop") (codes "default") stored_names
    ≡ ok (codes "app.cfg.current.shop.default" ∷ codes "app.cfg.current.shop.default" ∷ [])
unfolding list_namespaces has_prefix last_index
listed = refl

abbrev no_port : Bytes → ℤ
no_port s = pos 0

-- The text that waits is shown in front of the one in force.
shown :
    get_namespaces memory no_port (codes "shop") (codes "default") stored_names
    ≡ ok (
        record {
          namespace = codes "web.yaml";
          format = codes "yaml";
          instances = [];
          content = codes "a: 2";
          original = codes "a: 1";
        }
        ∷ record {
          namespace = codes "db.props";
          format = codes "props";
          instances = [];
          content = codes "b=2";
          original = codes "b=2";
        }
        ∷ [])
unfolding get_namespaces has_prefix app_config_key last_index lookup same
shown = refl

abbrev version : Bytes → NamespaceEditHistory
version t = record { time = t; modified_by = codes "ann"; content = [] }

sorted :
    sort_newest
      (λ s t. less t s)
      (version (codes "2") ∷ version (codes "3") ∷ version (codes "1") ∷ [])
    ≡ version (codes "3") ∷ version (codes "2") ∷ version (codes "1") ∷ []
unfolding sort_newest less
sorted = refl
