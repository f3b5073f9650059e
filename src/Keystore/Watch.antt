-- ===== src/Keystore/Watch.antt =====
-- components/keystore/kubernetes.go: the watch of the secret.
use kweb.Base.{if◌then◌else◌, List, [], ◌∷◌, Text, text_eq, ok, err}
use kweb.Keystore.Keys.{Library}
use kweb.Keystore.Secret.{Secret}
use kweb.Keystore.Store.{
  Event, bookmark, added, modified, deleted, watch_error, unknown_event, WatchError, list_failed,
  watch_failed, unexpected_object, error_reported, unknown_reported, channel_closed, Client, Store,
  on_update_secret, on_delete_secret,
}

module _ {P C : Type 0} (lib : Library P) (own_name : Text) (client : Client C) where
  -- The list that a watch starts with.
  unfoldable pub take_listed : List Secret → Store P C → Store P C
  unfolding on_update_secret
  take_listed [] st = st
  take_listed (s ∷ ss) st =
      take_listed ss (if text_eq s.name own_name then on_update_secret lib s st else st)

  -- The events of a watch, until an error or the end of the channel.
  unfoldable pub take_events : List Event → Store P C → WatchError × Store P C
  unfolding on_update_secret on_delete_secret
  take_events [] st = (channel_closed, st)
  take_events (bookmark ∷ es) st = take_events es st
  take_events (added s ∷ es) st =
      let rest = take_events es (on_update_secret lib s st) in
      if text_eq s.name own_name then rest else (unexpected_object s.name, st)
  take_events (modified s ∷ es) st =
      let rest = take_events es (on_update_secret lib s st) in
      if text_eq s.name own_name then rest else (unexpected_object s.name, st)
  take_events (deleted s ∷ es) st =
      let rest = take_events es (on_delete_secret lib s.version st) in
      if text_eq s.name own_name then rest else (unexpected_object s.name, st)
  take_events (watch_error ∷ es) st = (error_reported, st)
  take_events (unknown_event ∷ es) st = (unknown_reported, st)

  unfoldable pub watch_once : Store P C → WatchError × Store P C
  unfolding take_listed take_events
  watch_once st = elim (client.list st.cluster) [
    | err e ↦ (list_failed e, st)
    | ok ss ↦ elim (client.watch st.cluster) [
      | err e ↦ (watch_failed e, take_listed ss st)
      | ok es ↦ take_events es (take_listed ss st)
    ]
  ]

-- `WatchForever`: the rounds until the context is cancelled, each with what the API server answers
-- in it; the end of a round is only logged.
module _ {P C : Type 0} (lib : Library P) (own_name : Text) where
  unfoldable pub watch_forever : List (Client C) → Store P C → Store P C
  unfolding watch_once
  watch_forever [] st = st
  watch_forever (client ∷ rounds) st = watch_forever rounds (watch_once lib own_name client st).1
