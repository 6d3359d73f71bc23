-- ===== src/App/UserApps/Laws.antt =====
-- What adding to, and removing from, a user's list of applications leaves in it.
use micro_conf.Text.Split.{split}
use micro_conf.App.Members.Laws.{
  contains-join, contains_nil, add_unless-contains, contains-add_part, contains-any,
}
use micro_conf.Text.Fold.{equal_fold}
use micro_conf.Store.{never, IsRaftStore, RaftStore}
use micro_conf.Base.Outcome.{after-ok, Result, err, message, not_found, panic, ok}
use micro_conf.App.UserApps.{
  add_app, remains, remove_app, remove_app_at, add_app_at, text_of, append_app,
}
use micro_conf.Text.Bytes.{Bytes, Lacks}
use micro_conf.Commons.{Str, Trimmed, begins_with}
use micro_conf.Base.{
  All, Bool, List, any, if◌then◌else◌, keep, length, map, not, null, ◌&&◌, ◌==◌, Bool-cases, ap,
  inl, inr, true, append_assoc, sym, ◌||◌, ◌∙◌, All-append, [], arith, false, refl, ℕ, ◌++◌, ◌∷◌,
  ◌≡◌, ◌≢◌,
}
use micro_conf.App.Members.{contains, add_part}
use mathlib.Core.List.{reverse, reverse-append, reverse-cons, concat-ne-nil}

begins_with-append : (c : ℕ) (s t : Bytes) → s ≢ [] → Lacks c s → begins_with c (s ++ t) ≡ false
begins_with-append c [] t h hl = absurd (h refl)
begins_with-append c (x ∷ s) t h (hx, hl) = ground arith

Lacks-reverse : (c : ℕ) (s : Bytes) → Lacks c s → Lacks c (reverse s)
Lacks-reverse c [] h = tt
Lacks-reverse c (x ∷ s) (hx, hs) =
    rw (reverse-cons x s)
      (All-append (λ y. y ≢ c) (reverse s) (x ∷ []) (Lacks-reverse c s hs) (hx, tt))

reverse-ne-nil : (s : Bytes) → s ≢ [] → reverse s ≢ []
reverse-ne-nil [] h e = h refl
reverse-ne-nil (x ∷ s) h e = concat-ne-nil x (reverse s) (sym (reverse-cons x s) ∙ e)

module _ (id : Bytes) (hi : id ≢ []) (hl : Lacks b',' id) where
  Lacks-begins : (s : Bytes) → s ≢ [] → Lacks b',' s → begins_with b',' s ≡ false
  Lacks-begins [] h hl = absurd (h refl)
  Lacks-begins (x ∷ s) h (hx, hl) = ground arith

  id_reverse : begins_with b',' (reverse id) ≡ false
  id_reverse = Lacks-begins (reverse id) (reverse-ne-nil id hi) (Lacks-reverse b',' id hl)

  Trimmed-id : Trimmed id
  Trimmed-id = (Lacks-begins id hi hl, id_reverse)

  Trimmed-append : (c : ℕ) (str : Bytes) → Trimmed (c ∷ str) → Trimmed ((c ∷ str) ++ b',' ∷ id)
  Trimmed-append c str (front, back) = (
    front,
    rw (reverse-append (c ∷ str) (b',' ∷ id), reverse-cons b',' id, append_assoc)
        (begins_with-append b',' (reverse id) _ (reverse-ne-nil id hi) (Lacks-reverse b',' id hl)),
  )

  -- A trimmed list stays as it is when an id is appended, and an empty one becomes the id.
  trim_comma-append :
      (lib : Str) (str : Bytes) → Trimmed str → lib.trim_comma (str ++ b',' ∷ id) ≡ add_part str id
  unfolding add_part
  trim_comma-append lib [] h = lib.trim_comma_front id Trimmed-id
  trim_comma-append lib (c ∷ str) h =
      lib.trim_comma_trimmed (c ∷ str ++ b',' ∷ id) (Trimmed-append c str h)

-- What is read is a list without a comma at its ends, or the key is not there.
abbrev pub Readable : Result Bytes → Type 0
Readable (ok list) = Trimmed list
Readable (err e) = e ≡ not_found

-- Some entry of the list is not the application `id`.
abbrev pub has_other : Bytes → Bytes → Bool
has_other id list = any (λ v. not (equal_fold v id)) (split b',' list)

module _ (rs : RaftStore) (laws : IsRaftStore rs) (lib : Str) (key id : Bytes) where
  -- The list under the key holds what `list` holds, and the id.
  Extended : Bytes → rs.State → Type 0
  Extended list t =
      (v : Bytes) × (rs.get key t ≡ ok v)
      × ((x : Bytes) → x ≢ [] → contains v x ≡ (contains list x || equal_fold id x))

  append_app_lem :
      (list : Bytes) (s : rs.State)
      → id ≢ []
      → Lacks b',' id
      → Trimmed list
      → append_app rs lib key list id s
        ≡ (if contains list id then (s, ok tt) else rs.set key (add_part list id) never s)
  unfolding append_app
  append_app_lem list s hi hl ht =
      ground (arith, contains-any list id hi, trim_comma-append id hi hl lib list ht)

  append_app-Extended :
      (list : Bytes) (s t : rs.State)
      → id ≢ []
      → Lacks b',' id
      → Trimmed list
      → (contains list id ≡ true → rs.get key s ≡ ok list)
      → append_app rs lib key list id s ≡ (t, ok tt)
      → Extended list t
  unfolding Extended
  append_app-Extended list s t hi hl ht hg h =
      let ran = append_app_lem list s hi hl ht in
      elim (Bool-cases (contains list id)) [
        | inl old ↦
            (list, ground (arith, hg old, ran), λ x hx. add_unless-contains list id x hx hi old)
        | inr new ↦ (
          add_part list id,
          laws.get-set_self key (add_part list id) s t (ground (arith, ran)),
          λ x hx. contains-add_part list id x hx hl,
        )
      ]

  add_app_at-Extended :
      (read : Result Bytes) (s t : rs.State)
      → id ≢ []
      → Lacks b',' id
      → Readable read
      → rs.get key s ≡ read
      → add_app_at rs lib key id read s ≡ (t, ok tt)
      → Extended (text_of read) t
  unfolding add_app_at text_of
  add_app_at-Extended (ok list) s t hi hl hr g h = append_app-Extended list s t hi hl hr (λ _. g) h
  add_app_at-Extended (err not_found) s t hi hl hr g h =
      let (s', a, set, appended) =
        after-ok (rs.set key id never s) (λ u _. append_app rs lib key [] id u) t tt h in
      append_app-Extended [] s' t hi hl (refl, refl) (λ e. cc (contains_nil id)) appended
  add_app_at-Extended (err panic) s t hi hl hr g h = cc hr
  add_app_at-Extended (err (message m)) s t hi hl hr g h = cc hr

  -- The id is not empty and has no comma, and the list is missing or has no comma at an end: after
  -- an addition that reports success, the list is there and holds the former ids and the new
  -- one, under every spelling that folds alike, and no other; whether it was there before or not.
  pub add_app-Extended :
      (s t : rs.State)
      → id ≢ []
      → Lacks b',' id
      → Readable (rs.get key s)
      → add_app rs lib key id s ≡ (t, ok tt)
      → (v : Bytes) × (rs.get key t ≡ ok v)
        × ((x : Bytes)
            → x ≢ []
            → contains v x ≡ (contains (text_of (rs.get key s)) x || equal_fold id x))
  unfolding add_app Extended
  add_app-Extended s t hi hl hr h = add_app_at-Extended (rs.get key s) s t hi hl hr refl h

  any-map_const :
      (x : Bytes) (ps : List Bytes)
      → any (λ v. equal_fold v x) (map (λ v. id) ps) ≡ (not (null ps) && equal_fold id x)
  any-map_const x [] = refl
  any-map_const x (p ∷ ps) = ground (arith, any-map_const x ps)

  null-keep : (p : Bytes → Bool) (ps : List Bytes) → not (null (keep p ps)) ≡ any p ps
  null-keep p [] = refl
  null-keep p (q ∷ ps) = ground (arith, null-keep p ps)

  map_const-Lacks : (ps : List Bytes) → Lacks b',' id → All (Lacks b',') (map (λ v. id) ps)
  map_const-Lacks [] h = tt
  map_const-Lacks (p ∷ ps) h = (h, map_const-Lacks ps h)

  contains-remains :
      (list x : Bytes)
      → x ≢ []
      → Lacks b',' id
      → contains (lib.join_comma (remains list id)) x ≡ (has_other id list && equal_fold id x)
  unfolding remains
  contains-remains list x hx hl =
      let q = λ (v : Bytes). not (equal_fold v id) in
      let kept = keep q (split b',' list) in
      ap (λ l. contains l x) (lib.join_comma_lem (map (λ v. id) kept))
      ∙ contains-join (map (λ v. id) kept) x hx (map_const-Lacks kept hl)
      ∙ any-map_const x kept
      ∙ ap (λ b. b && equal_fold id x) (null-keep q (split b',' list))

  -- The id has no comma: a removal that writes and reports success drops every other application,
  -- and leaves the one that was to be removed in the list exactly if there was another.
  pub remove_app-keeps :
      (list : Bytes) (s t : rs.State)
      → Lacks b',' id
      → rs.get key s ≡ ok list
      → (length (lib.join_comma (remains list id)) == length list) ≡ false
      → remove_app rs lib key id s ≡ (t, ok tt)
      → (v : Bytes) × (rs.get key t ≡ ok v)
        × ((x : Bytes) → x ≢ [] → contains v x ≡ (has_other id list && equal_fold id x))
  unfolding remove_app remove_app_at text_of
  remove_app-keeps list s t hl g d h = (
    lib.join_comma (remains list id),
    laws.get-set_self key _ s t (rw d at (ap (λ r. remove_app_at rs lib key id r s) (sym g) ∙ h)),
    λ x hx. contains-remains list x hx hl,
  )
