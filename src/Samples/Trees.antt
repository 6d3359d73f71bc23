-- ===== src/Samples/Trees.antt =====
-- Libraries of YAML and JSON that know one document each.
use micro_conf.Text.Bytes.{codes}
use micro_conf.Base.{some}
use micro_conf.Cfg.Codec.{
  Readings, done, end, field, item, scalar, seq, text, tree, Formats, Fields,
}

abbrev pub port_fields : Fields
port_fields =
    field (codes "db")
      (tree (
        field (codes "port") (scalar (codes "3306")) (
          field (codes "hosts") (seq (item (text (codes "a")) (item (text (codes "b")) done)))
            end)))
      (field (codes "name") (text (codes "x=y")) end)

abbrev pub formats : Formats
formats = record {
  unmarshal_yaml = λ s. some port_fields;
  marshal_yaml = λ v. some (codes "a: 1");
  unmarshal_json = λ s. some (tree port_fields);
}

-- Two calls that range over maps in the same order.
abbrev pub twice : Readings
twice = record { first = formats; second = formats }
