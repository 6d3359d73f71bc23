-- ===== src/Api/Sender.antt =====
-- api/client.go: a client signs the requests that it sends. The parsing of a URL and net/http are
-- parameters, as is the time; SignHeader is off.
pub mod Accepted
use micro_conf.Text.Decimal.{format_int, pos}
use micro_conf.Text.Bytes.{Bytes, codes}
use micro_conf.Dict.{Dict, insert}
use micro_conf.Base.Outcome.{Call, Result, err, message, ok}
use micro_conf.Api.{KvPair, build_params, get_pairs_from_map}
use micro_conf.Base.{List, Option, [], if◌then◌else◌, none, null, some, ◌++◌, ◌==◌, ◌∷◌, ℕ}

pub record HttpRequest : Type 0 where
  pub method : Bytes
  pub url : Bytes
  pub body : Bytes
  pub header : Dict (List Bytes)

pub record HttpResponse : Type 0 where
  pub status : ℕ
  pub status_text : Bytes
  pub content : Bytes

-- The first of the headers, if there is one; its content type is set where there is a body.
unfoldable pub header_of : Bytes → List (Dict (List Bytes)) → Dict (List Bytes)
header_of body [] = []
header_of body (h ∷ hs) =
    if null body then h else insert (codes "content-type") (codes "application/json" ∷ []) h

-- What is signed behind the parameters of the URL: the time and the name of the application.
unfoldable pub own_pairs : Bytes → Bytes → List KvPair
own_pairs time key =
    record { key = codes "time"; value = time } ∷ record { key = codes "app"; value = key } ∷ []

-- fmt.Sprintf("sign=%s&time=%d&app=%s", …)
unfoldable pub sign_query : Bytes → Bytes → Bytes → Bytes
sign_query sign time key =
    codes "sign=" ++ (sign ++ (codes "&time=" ++ (time ++ (codes "&app=" ++ key))))

-- `url_query` is url.Parse and Query, none for what is no URL.
module _ (sha256 : Bytes → Bytes) (url_query : Bytes → Option (Dict (List Bytes))) where
  unfoldable pub get_pairs_from_url : Bytes → List KvPair
  unfolding get_pairs_from_map
  get_pairs_from_url url = elim (url_query url) [ none ↦ [] | some m ↦ get_pairs_from_map m ]

  unfoldable pub sign_result : Bytes → Bytes → Bytes → Bytes → Bytes
  unfolding build_params get_pairs_from_url own_pairs
  sign_result url secret time key =
      sha256 (build_params (get_pairs_from_url url ++ own_pairs time key) ++ secret)

  -- The URL of the request that is sent.
  unfoldable pub signed_url : Bytes → Bytes → Bytes → Bytes → Bytes
  unfolding sign_result get_pairs_from_url sign_query
  signed_url url secret time key =
      let mark = if null (get_pairs_from_url url) then codes "?" else codes "&" in
      url ++ (mark ++ sign_query (sign_result url secret time key) time key)

  module _ {W : Type 0} (new_request : Bytes → Bytes → Result (Unit {0}))
      (send_request : HttpRequest → Call W HttpResponse) where
    -- requestWithHeader: the body of the reply, empty where there is none, and the error.
    unfoldable pub request_with_header :
        (key : Bytes)
        → (secret : Result Bytes) → (now : ℕ) → (method url body : Bytes) → List (Dict (List Bytes))
        → W
        → W × (Bytes × Result (Unit {0}))
    unfolding header_of signed_url
    request_with_header key (err e) now method url body headers w = (w, ([], err e))
    request_with_header key (ok secret) now method url body headers w =
        let target = signed_url url secret (format_int (pos now)) key in
        elim (new_request method target) [
          | err e ↦ (w, ([], err e))
          | ok a ↦
              let (v, answer) =
                send_request
                  (record {
                    method = method;
                    url = target;
                    body = body;
                    header = header_of body headers;
                  })
                  w in
              elim answer [
                | err e ↦ (v, ([], err e))
                | ok r ↦
                    if r.status == 200
                    then (v, (r.content, ok tt))
                    else (v, (r.content, err (message "Error with not correct status code")))
              ]
        ]
