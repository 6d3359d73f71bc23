-- ===== src/Tests/Users.antt =====
-- Registration and login in memory.
use micro_conf.User.Login.{account_of, login_valid-register}
use micro_conf.User.Accounts.{
  UserInfo, email_pattern, find_user, is_word, login_valid, register, store_user_info, stored,
  user_key, username_pattern, valid,
}
use micro_conf.Text.Fold.{equal_fold, lower}
use micro_conf.Text.Bytes.{Bytes, codes, same}
use micro_conf.Samples.Strings.{digest, digest-null}
use micro_conf.Samples.Pack.{users}
use micro_conf.Samples.Memory.{memory, memory-IsRaftStore}
use micro_conf.Http.{success}
use micro_conf.Dict.{Dict, insert, lookup}
use micro_conf.Base.Outcome.{ok}
use micro_conf.Base.{[], false, refl, some, ◌∷◌, ◌≡◌}

abbrev pub alice : UserInfo
alice = record {
  username = codes "alice";
  email = codes "alice@net";
  phone = [];
  avatar = [];
  password = codes "secret1";
}

-- What the registration of `alice` leaves in an empty store.
abbrev pub with_alice : Dict Bytes
with_alice = (register memory users digest false (some alice) []).0

registered : register memory users digest false (some alice) [] ≡ (with_alice, success ∷ [])
unfolding register store_user_info find_user username_pattern email_pattern is_word user_key lookup
    insert valid
registered = refl

pub alice_found :
    find_user memory users digest (codes "alice") with_alice
    ≡ ok (stored memory users digest (valid alice).0)
unfolding register store_user_info find_user username_pattern email_pattern is_word user_key lookup
    insert same valid stored
alice_found = refl

login_valid-register_example :
    login_valid memory users digest alice with_alice
    ≡ some (account_of memory memory-IsRaftStore users digest alice)
login_valid-register_example =
    login_valid-register memory memory-IsRaftStore users digest digest-null alice [] with_alice
      registered

logged_in :
    login_valid memory users digest alice with_alice
    ≡ some (record (stored memory users digest (valid alice).0) { password = [] })
unfolding login_valid register store_user_info username_pattern email_pattern is_word user_key
    lookup insert same equal_fold lower valid stored
logged_in = refl
