-- ===== src/Conn/Clients.antt =====
-- service/conn/client_mgr.go: the clients that are connected, by their key.
use micro_conf.Dict.{Dict, insert, lookup, remove}
use micro_conf.Base.{Option}
use micro_conf.Text.Bytes.{Bytes}

module _ {Client : Type 0} where
  unfoldable pub get_client : Bytes → Dict Client → Option Client
  get_client key clients = lookup key clients

  unfoldable pub register_client : Bytes → Client → Dict Client → Dict Client
  register_client key c clients = insert key c clients

  unfoldable pub unregister_client : Bytes → Dict Client → Dict Client
  unregister_client key clients = remove key clients
