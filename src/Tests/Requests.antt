-- ===== src/Tests/Requests.antt =====
-- A signed request.
use micro_conf.Text.Split.{split}
use micro_conf.Text.Cut.{cut}
use micro_conf.Api.Sender.Accepted.{IsPlain, check_url, check_url-signed_url, own_params}
use micro_conf.Api.Sender.{sign_result, signed_url}
use micro_conf.Text.Fold.{equal_fold, lower}
use micro_conf.Text.Decimal.{format_int, atoi, pos}
use micro_conf.Text.Bytes.{same, Bytes, codes}
use micro_conf.Tests.Apps.{shop, with_shop}
use micro_conf.Samples.Strings.{digest}
use micro_conf.Samples.Pack.{apps}
use micro_conf.Http.{next}
use micro_conf.Dict.{IsMap, insert, lookup, Dict}
use micro_conf.Base.Outcome.{ok}
use micro_conf.Base.{
  Option, length, none, some, ◌++◌, ◌≤◌, List, [], arith, false, null, refl, ◌↔◌, ◌∷◌, ◌≡◌,
}
use micro_conf.App.Info.{app_info_key, store_app, AppInfo, find_app}
use micro_conf.Api.Token.{Signed, require_token_iff}
use micro_conf.Api.{build_params, distance, get_pairs_from_map, get_param, require_token}
use micro_conf.Samples.Memory.{memory}

abbrev query_of : Bytes → Dict (List Bytes)
query_of sign =
    (codes "app", codes "shop" ∷ [])
    ∷ (codes "time", codes "5000" ∷ [])
    ∷ (codes "sign", sign ∷ [])
    ∷ []

abbrev sign_value : Bytes
sign_value = codes "0app=shop&time=5000&t"

passes-Signed :
    (null (get_param (query_of sign_value) (codes "app")) ≡ false)
    × ((info : AppInfo) × (find_app memory apps
            (get_param (query_of sign_value) (codes "app"))
            with_shop
          ≡ ok info)
        × Signed digest 9000 info.token (query_of sign_value))
unfolding get_param lookup same find_app store_app app_info_key insert atoi distance build_params
    get_pairs_from_map equal_fold lower
passes-Signed = (refl, (shop, refl, ((pos 5000, refl, omega arith), refl)))

require_token_iff_example :
    (require_token memory apps digest 9000 (query_of sign_value) with_shop ≡ next) ↔ (
      (null (get_param (query_of sign_value) (codes "app")) ≡ false)
      × ((info : AppInfo) × (find_app memory apps
              (get_param (query_of sign_value) (codes "app"))
              with_shop
            ≡ ok info)
          × Signed digest 9000 info.token (query_of sign_value)))
require_token_iff_example =
    require_token_iff memory apps digest 9000 (query_of sign_value) with_shop

-- The request passes.
passed : require_token memory apps digest 9000 (query_of sign_value) with_shop ≡ next
passed = require_token_iff_example.1 passes-Signed

-- A reader of URLs without escapes, and a digest that tells the length of a text.
abbrev params_of : List Bytes → Dict (List Bytes)
params_of [] = []
params_of (p ∷ ps) = elim (cut b'=' p).1 [
  | none ↦ params_of ps
  | some v ↦ ((cut b'=' p).0, v ∷ []) ∷ params_of ps
]

abbrev read_url : Bytes → Option (Dict (List Bytes))
read_url url = elim (cut b'?' url).1 [ none ↦ some [] | some q ↦ some (params_of (split b'&' q)) ]

abbrev length_digest : Bytes → Bytes
length_digest s = format_int (pos (length s))

abbrev list_url : Bytes
list_url = codes "http://h/list?ns=a"

abbrev list_params : Dict (List Bytes)
list_params = (codes "ns", codes "a" ∷ []) ∷ []

abbrev sent_url : Bytes
sent_url =
    signed_url length_digest read_url list_url (codes "t") (format_int (pos 5000)) (codes "shop")

abbrev sent_params : Dict (List Bytes)
sent_params =
    list_params
    ++ own_params
        (sign_result length_digest read_url list_url (codes "t") (format_int (pos 5000))
          (codes "shop"))
        (format_int (pos 5000)) (codes "shop")

sent : sent_url ≡ codes "http://h/list?ns=a&sign=25&time=5000&app=shop"
unfolding signed_url cut split equal_fold same lower format_int
sent = refl

list_read : read_url list_url ≡ some list_params
unfolding cut split
list_read = refl

sent_read : read_url sent_url ≡ some sent_params
unfolding cut signed_url split equal_fold same lower format_int
sent_read = refl

sent_params-IsMap : IsMap sent_params
unfolding lookup same
sent_params-IsMap = (refl, (refl, (refl, (refl, tt))))

list_params-IsPlain : IsPlain list_params
unfolding lookup same
list_params-IsPlain = (refl, refl, refl)

near_enough : distance (pos 5000) 60000 ≤ 60000
unfolding distance
near_enough = omega arith

check_url-signed_url_example : check_url length_digest read_url 60000 (codes "t") sent_url ≡ ok tt
unfolding lookup
check_url-signed_url_example =
    check_url-signed_url length_digest read_url list_url (codes "t") (codes "shop") 5000 60000
      list_params sent_params (refl, tt) sent_params-IsMap list_params-IsPlain (omega arith)
      near_enough list_read sent_read (λ k. refl)
