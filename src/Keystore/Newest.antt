-- ===== src/Keystore/Newest.antt =====
-- components/keystore/kubernetes.go: whatever a watch reports in whatever order, the key sets are
-- those of the newest report.
use mathlib.Core.List.{Memᴰ}
use mathlib.Core.List.Memᴰ.{head, tail}
use kweb.Base.{
  Bool, true, false, Bool-cases, if◌then◌else◌, List, [], ◌∷◌, ◌++◌, Result-cases, Text, text_eq,
  ok, err, All, ◌≡◌, refl, sym, ap, ◌∙◌, subst, ◌⊎◌, inl, inr,
}
use kweb.Base.Dict.{Dict}
use kweb.Base.Integers.{ℤ, int_leb, parse_int64, int_leb_refl, int_leb_trans, int_leb_total}
use kweb.Keystore.Keys.{Library}
use kweb.Keystore.KeySet.{KeySet}
use kweb.Keystore.Secret.{Secret, decode_secret}
use kweb.Keystore.Store.{
  Event, bookmark, added, modified, deleted, watch_error, unknown_event, Client, Store, with_sets,
  replace, on_update_secret, on_delete_secret,
}
use kweb.Keystore.Watch.{take_listed, take_events, watch_once}

-- A report: a version, and the key sets that there are at it.
abbrev pub Report : Type 0 → Type 0
Report P = (ℤ × Bool) × Dict (KeySet P)

module _ {P : Type 0} where
  -- The versions are numbers.
  abbrev pub Numbered : List (Report P) → Type 0
  Numbered reports = All (λ r. r.0.1 ≡ true) reports

module _ {P C : Type 0} where
  -- Behind the reports no version is above that of the store, and the key sets are those of one of
  -- the reports with this version, or the store is as before.
  pub record Newest (st : Store P C) (reports : List (Report P)) (st' : Store P C) : Type 0 where
    pub later : int_leb st.resource_version st'.resource_version ≡ true
    pub newest : All (λ r. int_leb r.0.0 st'.resource_version ≡ true) reports
    pub reported :
        (st' ≡ st)
        ⊎ ((r : Report P) × Memᴰ r reports × (st'.resource_version ≡ r.0.0) × (st'.key_sets ≡ r.1))

  abbrev take : Report P → Store P C → Store P C
  take r st = replace r.0 r.1 st

  abbrev take_all : List (Report P) → Store P C → Store P C
  take_all [] st = st
  take_all (r ∷ rs) st = take_all rs (take r st)

  none-Newest : (st : Store P C) → Newest st [] st
  none-Newest st = record {
    later = int_leb_refl st.resource_version;
    newest = tt;
    reported = inl refl;
  }

  -- A report that is not newer changes nothing.
  old-Newest :
      (st st' : Store P C) (v : ℤ) (sets : Dict (KeySet P)) (rs : List (Report P))
      → int_leb v st.resource_version ≡ true
      → Newest st rs st'
      → Newest st (((v, true), sets) ∷ rs) st'
  old-Newest st st' v sets rs h n = record {
    later = n.later;
    newest = (int_leb_trans v st.resource_version st'.resource_version h n.later, n.newest);
    reported = elim n.reported [ inl e ↦ inl e | inr (r, m, e, e') ↦ inr (r, tail m, e, e') ];
  }

  new-Newest :
      (st st' : Store P C) (v : ℤ) (sets : Dict (KeySet P)) (rs : List (Report P))
      → int_leb v st.resource_version ≡ false
      → Newest (with_sets sets v st) rs st'
      → Newest st (((v, true), sets) ∷ rs) st'
  new-Newest st st' v sets rs h n = record {
    later =
        int_leb_trans st.resource_version v st'.resource_version
          (int_leb_total v st.resource_version h) n.later;
    newest = (n.later, n.newest);
    reported = elim n.reported [
      | inl e ↦
          inr (((v, true), sets), head refl, ap (λ s. s.resource_version) e, ap (λ s. s.key_sets) e)
      | inr (r, m, e, e') ↦ inr (r, tail m, e, e')
    ];
  }

  take_all-Newest :
      (rs : List (Report P)) (st : Store P C) → Numbered rs → Newest st rs (take_all rs st)
  unfolding replace
  take_all-Newest [] st h = none-Newest st
  take_all-Newest (((v, false), sets) ∷ rs) st (h, hs) = cc
  take_all-Newest (((v, true), sets) ∷ rs) st (h, hs) =
      elim (Bool-cases (int_leb v st.resource_version)) [
        | inl e ↦ rw e (old-Newest st _ v sets rs e (take_all-Newest rs st hs))
        | inr e ↦ rw e (new-Newest st _ v sets rs e (take_all-Newest rs (with_sets sets v st) hs))
      ]

module _ {P : Type 0} (lib : Library P) (own_name : Text) where
  abbrev pub report_of : Secret → Report P
  report_of s = (parse_int64 s.version, decode_secret lib s.contents)

  -- The reports of a list of secrets, and those of the events before one that ends the watch.
  abbrev pub listed_reports : List Secret → List (Report P)
  listed_reports [] = []
  listed_reports (s ∷ ss) =
      let rest = listed_reports ss in if text_eq s.name own_name then report_of s ∷ rest else rest

  abbrev pub event_reports : List Event → List (Report P)
  event_reports [] = []
  event_reports (bookmark ∷ es) = event_reports es
  event_reports (added s ∷ es) =
      let rest = event_reports es in if text_eq s.name own_name then report_of s ∷ rest else []
  event_reports (modified s ∷ es) =
      let rest = event_reports es in if text_eq s.name own_name then report_of s ∷ rest else []
  event_reports (deleted s ∷ es) =
      let rest = event_reports es in
      if text_eq s.name own_name then (parse_int64 s.version, []) ∷ rest else []
  event_reports (watch_error ∷ es) = []
  event_reports (unknown_event ∷ es) = []

module _ {P C : Type 0} (lib : Library P) (own_name : Text) (client : Client C) where
  take_listed-take_all :
      (ss : List Secret) (st : Store P C)
      → take_listed lib own_name client ss st ≡ take_all (listed_reports lib own_name ss) st
  unfolding take_listed on_update_secret
  take_listed-take_all [] st = refl
  take_listed-take_all (s ∷ ss) st = elim (Bool-cases (text_eq s.name own_name)) [
    | inl e ↦ rw e (take_listed-take_all ss (on_update_secret lib s st))
    | inr e ↦ rw e (take_listed-take_all ss st)
  ]

  take_events-take_all :
      (es : List Event) (st : Store P C)
      → (take_events lib own_name client es st).1 ≡ take_all (event_reports lib own_name es) st
  unfolding take_events on_update_secret on_delete_secret
  take_events-take_all [] st = refl
  take_events-take_all (bookmark ∷ es) st = take_events-take_all es st
  take_events-take_all (added s ∷ es) st = elim (Bool-cases (text_eq s.name own_name)) [
    | inl e ↦ rw e (take_events-take_all es (on_update_secret lib s st))
    | inr e ↦ rw e refl
  ]
  take_events-take_all (modified s ∷ es) st = elim (Bool-cases (text_eq s.name own_name)) [
    | inl e ↦ rw e (take_events-take_all es (on_update_secret lib s st))
    | inr e ↦ rw e refl
  ]
  take_events-take_all (deleted s ∷ es) st = elim (Bool-cases (text_eq s.name own_name)) [
    | inl e ↦ rw e (take_events-take_all es (on_delete_secret lib s.version st))
    | inr e ↦ rw e refl
  ]
  take_events-take_all (watch_error ∷ es) st = refl
  take_events-take_all (unknown_event ∷ es) st = refl

  -- What one round of the watch takes in: its list, and the events if the watch starts.
  abbrev pub round_reports : C → List (Report P)
  round_reports c = elim (client.list c) [
    | err _ ↦ []
    | ok ss ↦ elim (client.watch c) [
      | err _ ↦ listed_reports lib own_name ss
      | ok es ↦ listed_reports lib own_name ss ++ event_reports lib own_name es
    ]
  ]

  take_all-append :
      (xs ys : List (Report P)) (st : Store P C)
      → take_all (xs ++ ys) st ≡ take_all ys (take_all xs st)
  take_all-append [] ys st = refl
  take_all-append (x ∷ xs) ys st = take_all-append xs ys (take x st)

  watch_once-take_all :
      (st : Store P C)
      → (watch_once lib own_name client st).1 ≡ take_all (round_reports st.cluster) st
  unfolding watch_once
  watch_once-take_all st = elim (Result-cases (client.list st.cluster)) [
    | inr (e, h) ↦ rw (watch_once, h, round_reports) refl
    | inl (ss, h) ↦ elim (Result-cases (client.watch st.cluster)) [
      | inr (e, k) ↦ rw (watch_once, h, round_reports, k) (take_listed-take_all ss st)
      | inl (es, k) ↦
          rw (watch_once, h, round_reports, k)
            (take_events-take_all es (take_listed lib own_name client ss st)
              ∙ ap (take_all (event_reports lib own_name es)) (take_listed-take_all ss st)
              ∙ sym (
                  take_all-append (listed_reports lib own_name ss) (event_reports lib own_name es)
                    st))
    ]
  ]

  -- One round of the watch takes in its list and its events, in the order in which they come. If
  -- their versions are numbers, then afterwards the version of the store is not below what it was
  -- nor below that of any of them, and the store is unchanged, or its key sets are those of one of
  -- them, at the version of the store: an old report never undoes a newer one.
  pub watch_once-Newest :
      (st : Store P C)
      → Numbered (round_reports st.cluster)
      → Newest st (round_reports st.cluster) (watch_once lib own_name client st).1
  watch_once-Newest st h =
      subst (Newest st (round_reports st.cluster)) (sym (watch_once-take_all st))
        (take_all-Newest (round_reports st.cluster) st h)
