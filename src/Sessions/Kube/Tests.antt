-- ===== src/Sessions/Kube/Tests.antt =====
-- The storage in Kubernetes with a concrete API server.
use kweb.Base.{suc, Option, none, some, [], ◌∷◌, Text, Result, ok, err, ◌≡◌, refl}
use kweb.Base.Dict.{Dict, lookup, insert, lookup-insert_self}
use kweb.Sessions.Storage.{Keeps}
use kweb.Sessions.Tests.{lib, lawful, suc_nil}
use kweb.Sessions.Kube.{ApiError, not_found, Object, Client, storage}
use kweb.Sessions.Kube.Laws.{Consistent, kube-Keeps}

-- A server that keeps the bytes of each name.
found : Text → Option Text → Result ApiError Object
found name none = err not_found
found name (some b) = ok record { name = name; bytes = b; version = [] }

abbrev server : Client (Dict Text)
server = record {
  get = λ name c. found name (lookup name c);
  create = λ o c. (ok tt, insert o.name o.bytes c);
  update = λ o c. (ok tt, insert o.name o.bytes c);
}

found_name : (n : Text) (b : Option Text) (o : Object) → found n b ≡ ok o → o.name ≡ n
unfolding found
found_name n none o h = cc
found_name n (some b) o h = cc h

stored :
    (n b : Text) (c : Dict Text)
    → found n (lookup n (insert n b c)) ≡ ok record { name = n; bytes = b; version = [] }
unfolding found
stored n b c = rw (lookup-insert_self n b c) refl

consistent : Consistent server
consistent = record {
  creates = λ o c r. (_, stored o.name o.bytes c, refl);
  updates = λ o c r. (_, stored o.name o.bytes c, refl);
  reads_name = λ n c o h. found_name n (lookup n c) o h;
}

kube-Keeps_example : Keeps (storage lib (λ n. suc n ∷ []) server)
kube-Keeps_example = kube-Keeps lib (λ n. suc n ∷ []) server lawful consistent suc_nil
