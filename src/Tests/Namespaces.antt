-- ===== src/Tests/Namespaces.antt =====
-- Namespaces in memory: their flat lists, their differences, their edit and their release.
use micro_conf.Text.Fold.{equal_fold, lower}
use micro_conf.Tests.Apps.{with_shop}
use micro_conf.Samples.Strings.{strings}
use micro_conf.Text.Decimal.{format_int}
use micro_conf.Samples.Pack.{apps, histories}
use micro_conf.Samples.Memory.{memory, memory-IsRaftStore}
use micro_conf.Http.{Reply, success}
use micro_conf.Cfg.Codec.{do_map_to_properties, index_suffix, prefix_with_dot}
use micro_conf.Cfg.Admin.Release.{release_namespace-json, release_namespace-success}
use micro_conf.Cfg.Admin.{
  NamespaceReq, create_namespace, change_namespace_content, history_key, release_namespace,
  unreleased_key,
}
use micro_conf.App.Info.{
  app_info_key, find_app, is_name_byte, name_pattern, store_app, app_config_key,
}
use micro_conf.Text.Split.{split}
use micro_conf.Text.Cut.{ends_ink, is_space, replace_byte, cut, trim_space}
use micro_conf.Dict.{remove, Dict, insert, lookup}
use micro_conf.Cfg.Differ.{
  place_new, place_old, scan_new, scan_old, NamespaceDiff, build_namespace_diff,
}
use micro_conf.Cfg.Diff.Laws.{ReadAlike}
use micro_conf.Text.Index.{last_index}
use micro_conf.Text.Bytes.{same, has_suffix, Bytes, codes, contains_text, has_prefix}
use micro_conf.Samples.Trees.{twice, formats, port_fields}
use micro_conf.Cfg.Flat.RoundTrip.{Plain, to_pair, yaml_to_kv_list-leaves}
use micro_conf.Cfg.Flat.Leaves.{clean_document, leaves}
use micro_conf.Cfg.Flat.{
  json_to_flat_map, yaml_to_flat_map, fill, has_mark, properties_to_map, yaml_to_kv_list,
}
use micro_conf.Cfg.Diff.{lenient, diff, format_of}
use micro_conf.Base.Outcome.{ok-injective, ok}
use micro_conf.Base.{ap, sym, ◌∙◌, List, false, All, arith, [], map, refl, some, true, ◌∷◌, ◌≡◌}

port_content : has_mark (codes "db:") ≡ true
unfolding has_mark contains_text has_prefix
port_content = refl

port_clean : clean_document port_fields ≡ true
unfolding clean_document
port_clean = refl

port-Plain : All Plain (leaves port_fields)
unfolding leaves prefix_with_dot index_suffix format_int is_space ends_ink
port-Plain = (
  (refl, omega arith, omega arith, omega arith, refl),
  (
    (refl, omega arith, omega arith, omega arith, refl),
    (
      (refl, omega arith, omega arith, omega arith, refl),
      ((refl, omega arith, omega arith, omega arith, refl), tt),
    ),
  ),
)

yaml_to_kv_list-leaves_example :
    yaml_to_kv_list formats (codes "db:") ≡ ok (map to_pair (leaves port_fields))
yaml_to_kv_list-leaves_example =
    yaml_to_kv_list-leaves formats (codes "db:") port_fields refl port_content port_clean port-Plain

abbrev pub one : Bytes
one = codes "k=1"

abbrev pub two : Bytes
two = codes "k=2"

abbrev pub one_dict : Dict Bytes
one_dict = (codes "k", codes "1") ∷ []

abbrev pub two_dict : Dict Bytes
two_dict = (codes "k", codes "2") ∷ []

abbrev pub props : Bytes
props = codes "a.props"

abbrev json : Bytes
json = codes "a.json"

props_format : format_of props ≡ some (codes "props")
unfolding format_of last_index
props_format = refl

json_format : format_of json ≡ some (codes "json")
unfolding format_of last_index
json_format = refl

one_map : properties_to_map one ≡ ok one_dict
unfolding properties_to_map contains_text has_suffix split trim_space cut insert
one_map = refl

two_map : properties_to_map two ≡ ok two_dict
unfolding properties_to_map contains_text has_suffix split trim_space cut insert
two_map = refl

abbrev port_dict : Dict Bytes
port_dict = fill (map to_pair (leaves port_fields)) []

abbrev port_diff : NamespaceDiff
port_diff = build_namespace_diff json port_dict port_dict

read_port : diff twice json one (codes "{}") ≡ ok port_diff
unfolding diff last_index same has_prefix replace_byte has_mark contains_text json_to_flat_map
    yaml_to_flat_map do_map_to_properties has_suffix format_int split trim_space cut leaves insert
read_port = refl

abbrev pub ns_id : Bytes
ns_id = codes "i"

abbrev pub ns_group : Bytes
ns_group = codes "g"

abbrev pub released : Dict Bytes
released = insert (app_config_key ns_id ns_group props) one []

abbrev edited : Dict Bytes
edited = insert (unreleased_key ns_id ns_group props) two released

change :
    change_namespace_content memory twice histories ns_id ns_group props (some two) released
    ≡ (edited, success ∷ [])
unfolding change_namespace_content app_config_key lookup insert same
change = refl

abbrev ann : Bytes
ann = codes "ann"

abbrev pub noon : Bytes
noon = codes "2024-01-01T12:00:00Z"

abbrev done_release : Dict Bytes × List Reply
done_release = release_namespace memory twice histories ns_id ns_group props ann noon edited

pub differs :
    (diff twice props one two ≡ ok (build_namespace_diff props one_dict two_dict))
    × ((build_namespace_diff props one_dict two_dict).is_same ≡ false)
unfolding diff last_index same contains_text has_suffix split trim_space cut insert
    build_namespace_diff properties_to_map scan_new place_new lookup scan_old place_old equal_fold
    lower
differs = (refl, refl)

current_one : memory.get (app_config_key ns_id ns_group props) edited ≡ ok one
unfolding app_config_key unreleased_key lookup insert same
current_one = refl

waiting_two : memory.get (unreleased_key ns_id ns_group props) edited ≡ ok two
unfolding app_config_key unreleased_key lookup insert same
waiting_two = refl

released_two :
    release_namespace memory twice histories ns_id ns_group props ann noon edited
    ≡ (done_release.0, success ∷ [])
unfolding release_namespace lookup insert remove diff last_index same contains_text has_suffix split
    trim_space cut build_namespace_diff properties_to_map scan_new place_new scan_old place_old
    equal_fold lower
released_two = refl

release_namespace-success_example :
    (memory.get (app_config_key ns_id ns_group props) done_release.0 ≡ ok two)
    × (memory.get (history_key ns_id ns_group props noon) done_release.0
        ≡ ok (histories.marshal (record { time = noon; modified_by = ann; content = one })))
release_namespace-success_example =
    release_namespace-success memory memory-IsRaftStore twice histories ns_id ns_group props ann
      noon one two edited done_release.0 (build_namespace_diff props one_dict two_dict) current_one
      waiting_two differs.0 differs.1 released_two

abbrev edited_json : Dict Bytes
edited_json =
    insert (unreleased_key ns_id ns_group json) (codes "{}")
      (insert (app_config_key ns_id ns_group json) [] [])

alike_json :
    (waiting : Bytes)
    → memory.get (unreleased_key ns_id ns_group json) edited_json ≡ ok waiting
    → ReadAlike twice waiting
unfolding lenient
alike_json waiting h m n a b k = ap (lookup k) (ok-injective (sym a ∙ ap lenient b))

release_namespace-json_example :
    (release_namespace memory twice histories ns_id ns_group json ann noon edited_json).0
    ≡ edited_json
release_namespace-json_example =
    release_namespace-json memory memory-IsRaftStore twice histories ns_id ns_group json ann noon
      edited_json json_format alike_json

abbrev fresh : NamespaceReq
fresh = record { app_id = codes "shop"; group = codes "default"; namespace = props; content = [] }

created :
    create_namespace memory strings apps fresh with_shop
    ≡ ((create_namespace memory strings apps fresh with_shop).0, ok tt)
unfolding create_namespace name_pattern is_name_byte has_suffix find_app lookup store_app insert
    same app_info_key split
created = refl
