-- ===== src/Api/Sender/Accepted.antt =====
-- A request of the client at the server that checks it.
use micro_conf.Api.Token.{check_valid_iff}
use micro_conf.Api.Sorted.{build_params-lookup}
use micro_conf.Text.Fold.{equal_fold_refl, lower, equal_fold}
use micro_conf.Text.Decimal.{atoi, atoi-format_int, format_int, pos}
use micro_conf.Text.Bytes.{same, same_iff, Bytes, codes}
use micro_conf.Dict.{Dict, IsMap, lookup}
use micro_conf.Base.Outcome.{Result, err, message, ok}
use micro_conf.Api.Sender.{get_pairs_from_url, own_pairs, sign_result, signed_url}
use micro_conf.Api.{
  build_params, first_value, get_param, concat_values, check_valid, distance, get_pairs_from_map,
}
use micro_conf.Base.{
  sym, ap, true, append-nil, false, ◌∙◌, List, Option, [], arith, none, refl, some, ◌++◌, ◌<◌, ◌^◌,
  ◌∷◌, ◌≡◌, ◌≤◌, ℕ,
}

get_pairs_from_map-append :
    (m n : Dict (List Bytes))
    → get_pairs_from_map (m ++ n) ≡ get_pairs_from_map m ++ get_pairs_from_map n
unfolding get_pairs_from_map
get_pairs_from_map-append [] n = refl
get_pairs_from_map-append ((k, v) ∷ m) n = ground (arith, get_pairs_from_map-append m n)

-- The parameters that the client adds.
abbrev pub own_params : Bytes → Bytes → Bytes → Dict (List Bytes)
own_params sign time key =
    (codes "sign", sign ∷ []) ∷ (codes "time", time ∷ []) ∷ (codes "app", key ∷ []) ∷ []

own_pairs-own_params :
    (sign time key : Bytes) → get_pairs_from_map (own_params sign time key) ≡ own_pairs time key
unfolding get_pairs_from_map own_pairs equal_fold same lower concat_values
own_pairs-own_params sign time key = λ i.
    record { key = codes "time"; value = append-nil time i }
    ∷ record { key = codes "app"; value = append-nil key i }
    ∷ []

-- No parameter has one of the names that the client adds.
abbrev pub IsPlain : Dict (List Bytes) → Type 0
IsPlain m =
    (lookup (codes "sign") m ≡ none)
    × (lookup (codes "time") m ≡ none)
    × (lookup (codes "app") m ≡ none)

lookup-append :
    (k : Bytes) (m n : Dict (List Bytes))
    → lookup k (m ++ n) ≡ elim (lookup k m) [ some v ↦ some v | none ↦ lookup k n ]
unfolding lookup
lookup-append k [] n = refl
lookup-append k ((i, w) ∷ m) n = ground (arith, lookup-append k m n)

-- A name that a map with an entry lacks is not that of the entry, nor in the rest.
lacks_name :
    (j k : Bytes) (v : List Bytes) (m : Dict (List Bytes))
    → lookup j ((k, v) ∷ m) ≡ none
    → (same j k ≡ false) × (lookup j m ≡ none)
unfolding lookup
lacks_name j k v m h =
    (ground (arith, same_iff j k, same_iff k j, h), ground (arith, same_iff k j, h))

lookup-own_params :
    (k sign time key : Bytes)
    → same (codes "sign") k ≡ false
    → same (codes "time") k ≡ false
    → same (codes "app") k ≡ false
    → lookup k (own_params sign time key) ≡ none
unfolding lookup
lookup-own_params k sign time key a b c = ground (arith, a, b, c)

own_params-IsMap :
    (m : Dict (List Bytes)) (sign time key : Bytes)
    → IsMap m
    → IsPlain m
    → IsMap (m ++ own_params sign time key)
unfolding lookup same
own_params-IsMap [] sign time key h p = (refl, (refl, (refl, tt)))
own_params-IsMap ((k, v) ∷ m) sign time key (fresh, h) (ps, pt, pa) =
    let (s_off, s_rest) = lacks_name (codes "sign") k v m ps in
    let (t_off, t_rest) = lacks_name (codes "time") k v m pt in
    let (a_off, a_rest) = lacks_name (codes "app") k v m pa in
    (
      lookup-append k m (own_params sign time key)
          ∙ ground (arith, fresh, lookup-own_params k sign time key s_off t_off a_off),
      own_params-IsMap m sign time key h (s_rest, t_rest, a_rest),
    )

-- A name that the first of two maps lacks.
lookup-append_lacks :
    (k : Bytes) (m n : Dict (List Bytes)) → lookup k m ≡ none → lookup k (m ++ n) ≡ lookup k n
lookup-append_lacks k m n h = lookup-append k m n ∙ ground (arith, h)

sign_value-own_params :
    (sign time key : Bytes) → lookup (codes "sign") (own_params sign time key) ≡ some (sign ∷ [])
unfolding lookup same
sign_value-own_params sign time key = refl

time_value-own_params :
    (sign time key : Bytes) → lookup (codes "time") (own_params sign time key) ≡ some (time ∷ [])
unfolding lookup same
time_value-own_params sign time key = refl

get_param-lookup :
    (k v : Bytes) (m : Dict (List Bytes)) → lookup k m ≡ some (v ∷ []) → get_param m k ≡ v
unfolding get_param
get_param-lookup k v m h = ap first_value h

-- CheckValid on the parameters of the URL of a request.
abbrev pub check_url :
    (Bytes → Bytes) → (Bytes → Option (Dict (List Bytes))) → ℕ → Bytes → Bytes → Result (Unit {0})
check_url sha256 url_query now secret url = elim (url_query url) [
  | none ↦ err (message "illegal request")
  | some q ↦ check_valid sha256 now secret q
]

module _ (sha256 : Bytes → Bytes) (url_query : Bytes → Option (Dict (List Bytes))) where
  sign_result-map :
      (url secret time key : Bytes) (m : Dict (List Bytes))
      → url_query url ≡ some m
      → sha256 (build_params (get_pairs_from_map m ++ own_pairs time key) ++ secret)
        ≡ sign_result sha256 url_query url secret time key
  unfolding sign_result get_pairs_from_url
  sign_result-map url secret time key m read =
      ap
        (λ o. sha256 (
          build_params
            ((elim o [ none ↦ [] | some q ↦ get_pairs_from_map q ]) ++ own_pairs time key)
          ++ secret))
        (sym read)

  -- If the parameters of a URL have none of the names sign, time and app, and the URL that the
  -- client makes of it is read as the same parameters with the three that the client appends, in
  -- any order, then CheckValid accepts the request for up to a minute, with the client's secret.
  pub check_url-signed_url :
      (url secret key : Bytes) (now arrival : ℕ) (m n : Dict (List Bytes))
      → IsMap m
      → IsMap n
      → IsPlain m
      → now < 2 ^ 63
      → distance (pos now) arrival ≤ 60000
      → url_query url ≡ some m
      → url_query (signed_url sha256 url_query url secret (format_int (pos now)) key) ≡ some n
      → ((k : Bytes)
          → lookup k n
            ≡ lookup k (
                m
                ++ own_params
                    (sign_result sha256 url_query url secret (format_int (pos now)) key)
                    (format_int (pos now))
                    key))
      → check_url sha256 url_query arrival secret
          (signed_url sha256 url_query url secret (format_int (pos now)) key)
        ≡ ok tt
  check_url-signed_url url secret key now arrival m n hm hn plain small near read sent same_params =
      ap
        (λ o. elim o [
          | none ↦ err (message "illegal request")
          | some q ↦ check_valid sha256 arrival secret q
        ])
        sent
      ∙ (check_valid_iff sha256 arrival secret n).1 (
        (pos now, ap atoi time_read ∙ atoi-format_int (pos now) (omega (arith, small)), near),
        digest,
      )
    where
      time : Bytes
      time = format_int (pos now)

      sign : Bytes
      sign = sign_result sha256 url_query url secret time key

      own : Dict (List Bytes)
      own = own_params sign time key

      time_read : get_param n (codes "time") ≡ time
      time_read = get_param-lookup (codes "time") time n (
          same_params (codes "time")
          ∙ lookup-append_lacks (codes "time") m own plain.1
          ∙ time_value-own_params sign time key)

      sign_read : get_param n (codes "sign") ≡ sign
      sign_read = get_param-lookup (codes "sign") sign n (
          same_params (codes "sign")
          ∙ lookup-append_lacks (codes "sign") m own plain.0
          ∙ sign_value-own_params sign time key)

      content :
          build_params (get_pairs_from_map n)
          ≡ build_params (get_pairs_from_map m ++ own_pairs time key)
      content =
          build_params-lookup n (m ++ own) hn (own_params-IsMap m sign time key hm plain)
            same_params
          ∙ ap build_params (
              get_pairs_from_map-append m own
              ∙ ap (λ ps. get_pairs_from_map m ++ ps) (own_pairs-own_params sign time key))

      signed : sha256 (build_params (get_pairs_from_map m ++ own_pairs time key) ++ secret) ≡ sign
      signed = sign_result-map url secret time key m read

      digest :
          equal_fold
            (sha256 (build_params (get_pairs_from_map n) ++ secret))
            (get_param n (codes "sign"))
          ≡ true
      digest =
          ap (λ t. equal_fold t (get_param n (codes "sign")))
            (ap (λ t. sha256 (t ++ secret)) content ∙ signed)
          ∙ ap (equal_fold sign) sign_read
          ∙ equal_fold_refl sign
