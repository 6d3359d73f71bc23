-- ===== src/Samples/Pack.antt =====
-- A writer and a reader of records: each field behind its length.
use micro_conf.Raft.Machine.{Command}
use micro_conf.Cfg.Push.{ConfigChangeEvent}
use micro_conf.Cfg.Admin.{NamespaceEditHistory}
use micro_conf.User.Accounts.{UserInfo}
use micro_conf.Text.Bytes.{Bytes}
use micro_conf.Json.{Json}
use micro_conf.Base.{
  List, Option, [], drop, drop-append, length, none, refl, some, suc, take, take-append, zero, ℕ,
  ◌++◌, ◌∷◌, ◌≡◌,
}
use micro_conf.App.Info.{AppInfo}

abbrev pub pack : List Bytes → Bytes
pack [] = []
pack (p ∷ ps) = length p ∷ (p ++ pack ps)

abbrev pub onto : Bytes → Option (List Bytes) → Option (List Bytes)
onto p none = none
onto p (some ps) = some (p ∷ ps)

abbrev pub unpack : ℕ → Bytes → Option (List Bytes)
unpack zero s = some []
unpack (suc n) [] = none
unpack (suc n) (k ∷ s) = onto (take k s) (unpack n (drop k s))

pub unpack-pack : (ps : List Bytes) → unpack (length ps) (pack ps) ≡ some ps
unpack-pack [] = refl
unpack-pack (p ∷ ps) = rw (take-append p (pack ps), drop-append p (pack ps), unpack-pack ps)

abbrev pub user_fields : UserInfo → List Bytes
user_fields u = u.username ∷ u.email ∷ u.phone ∷ u.avatar ∷ u.password ∷ []

abbrev pub user_of : Option (List Bytes) → Option UserInfo
user_of (some (a ∷ b ∷ c ∷ d ∷ e ∷ [])) =
    some (record { username = a; email = b; phone = c; avatar = d; password = e })
user_of _ = none

pub user_of-unpack : (u : UserInfo) → user_of (unpack 5 (pack (user_fields u))) ≡ some u
user_of-unpack u = rw (unpack-pack (user_fields u))

abbrev pub users : Json UserInfo
users = record {
  marshal = λ u. pack (user_fields u);
  unmarshal = λ s. user_of (unpack 5 s);
  unmarshal-marshal = user_of-unpack;
}

abbrev pub app_fields : AppInfo → List Bytes
app_fields a =
    a.app_id ∷ a.name ∷ a.creator ∷ a.create_time ∷ a.token ∷ a.department ∷ a.detail ∷ a.owners
    ∷ a.developers ∷ a.viewers ∷ a.groups ∷ []

abbrev pub app_of : Option (List Bytes) → Option AppInfo
app_of (some (a ∷ b ∷ c ∷ d ∷ e ∷ f ∷ g ∷ h ∷ i ∷ j ∷ k ∷ [])) = some (record {
  app_id = a;
  name = b;
  creator = c;
  create_time = d;
  token = e;
  department = f;
  detail = g;
  owners = h;
  developers = i;
  viewers = j;
  groups = k;
})
app_of _ = none

pub app_of-unpack : (a : AppInfo) → app_of (unpack 11 (pack (app_fields a))) ≡ some a
app_of-unpack a = rw (unpack-pack (app_fields a))

abbrev pub apps : Json AppInfo
apps = record {
  marshal = λ a. pack (app_fields a);
  unmarshal = λ s. app_of (unpack 11 s);
  unmarshal-marshal = app_of-unpack;
}

abbrev pub history_of : Option (List Bytes) → Option NamespaceEditHistory
history_of (some (a ∷ b ∷ c ∷ [])) = some (record { time = a; modified_by = b; content = c })
history_of _ = none

abbrev pub history_fields : NamespaceEditHistory → List Bytes
history_fields h = h.time ∷ h.modified_by ∷ h.content ∷ []

pub history_of-unpack :
    (h : NamespaceEditHistory) → history_of (unpack 3 (pack (history_fields h))) ≡ some h
history_of-unpack h = rw (unpack-pack (history_fields h))

abbrev pub histories : Json NamespaceEditHistory
histories = record {
  marshal = λ h. pack (history_fields h);
  unmarshal = λ s. history_of (unpack 3 s);
  unmarshal-marshal = history_of-unpack;
}

abbrev pub command_of : Option (List Bytes) → Option Command
command_of (some (a ∷ b ∷ c ∷ (n ∷ []) ∷ [])) =
    some (record { op = a; key = b; value = c; exp = n })
command_of _ = none

abbrev pub command_fields : Command → List Bytes
command_fields c = c.op ∷ c.key ∷ c.value ∷ (c.exp ∷ []) ∷ []

pub command_of-unpack : (c : Command) → command_of (unpack 4 (pack (command_fields c))) ≡ some c
command_of-unpack c = rw (unpack-pack (command_fields c))

abbrev pub commands : Json Command
commands = record {
  marshal = λ c. pack (command_fields c);
  unmarshal = λ s. command_of (unpack 4 s);
  unmarshal-marshal = command_of-unpack;
}

abbrev pub event_fields : ConfigChangeEvent → List Bytes
event_fields e = e.namespace ∷ e.key ∷ e.kind ∷ e.current ∷ e.before ∷ []

abbrev pub event_of : Option (List Bytes) → Option ConfigChangeEvent
event_of (some (a ∷ b ∷ c ∷ d ∷ e ∷ [])) =
    some (record { namespace = a; key = b; kind = c; current = d; before = e })
event_of _ = none

pub event_of-unpack : (e : ConfigChangeEvent) → event_of (unpack 5 (pack (event_fields e))) ≡ some e
event_of-unpack e = rw (unpack-pack (event_fields e))

abbrev pub events : Json ConfigChangeEvent
events = record {
  marshal = λ e. pack (event_fields e);
  unmarshal = λ s. event_of (unpack 5 s);
  unmarshal-marshal = event_of-unpack;
}
