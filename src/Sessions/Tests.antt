-- ===== src/Sessions/Tests.antt =====
-- Witnesses for the session store, with a hash that is the token with an "h" in front.
use sitebrush_v.Prelude.{◌+◌, ◌≡◌, refl, [], ◌∷◌, Option, none, some, if◌then◌else◌, ltb, arith}
use sitebrush_v.Prelude.Int.{pos}
use sitebrush_v.Text.{Text, codes, text_eq}
use sitebrush_v.Sessions.{OperatorSession, Store, session_duration, create_for_user, get, destroy}
use sitebrush_v.Sessions.Laws.{view, get-view, view-create_for_user, view-destroy}

abbrev sample_hash : Text → Text
sample_hash token = b'h' ∷ token

abbrev sample_session : OperatorSession
sample_session = record {
  user = codes "ann";
  email = codes "ann@example.org";
  user_id = pos 1;
  auth_source = codes "persistent";
  csrf_token = codes "c1";
  expires_at = 50;
}

abbrev sample_store : Store
sample_store = (sample_hash (codes "t1"), sample_session) ∷ []

abbrev sample_cookie : Option Text
sample_cookie = some (codes "t1")

get-view_example :
    ((get sample_hash 60 sample_store sample_cookie).1
      ≡ view sample_hash 60 sample_store sample_cookie)
    × (view sample_hash 70 (get sample_hash 60 sample_store sample_cookie).0 (some (codes "t2"))
        ≡ view sample_hash 70 sample_store (some (codes "t2")))
get-view_example =
    get-view sample_hash 60 70 sample_store sample_cookie (some (codes "t2")) (omega arith)

view-create_for_user_example :
    view sample_hash 90
      (create_for_user sample_hash 80
        (some (codes "t2"))
        (some (codes "c2"))
        sample_store
        (codes "bob")
        []
        (pos 2)
        (codes "persistent")).0
      (some (codes "t2"))
    ≡ (if text_eq (sample_hash (codes "t2")) (sample_hash (codes "t2"))
        then (if ltb (80 + session_duration) 90
            then none
            else some (record {
              user = codes "bob";
              email = [];
              user_id = pos 2;
              auth_source = codes "persistent";
              csrf_token = codes "c2";
              expires_at = 80 + session_duration;
            }))
        else view sample_hash 90 sample_store (some (codes "t2")))
view-create_for_user_example =
    view-create_for_user sample_hash 80 90 sample_store (codes "t2") (codes "c2") (codes "bob") []
      (pos 2) (codes "persistent") (codes "t2") refl

view-destroy_example :
    (view sample_hash 40 (destroy sample_hash sample_store sample_cookie) sample_cookie ≡ none)
    × (view sample_hash 40 (destroy sample_hash sample_store sample_cookie) (some (codes "t2")) ≡ (
        if text_eq (sample_hash (codes "t1")) (sample_hash (codes "t2"))
        then none
        else view sample_hash 40 sample_store (some (codes "t2"))))
view-destroy_example = view-destroy sample_hash 40 sample_store (codes "t1") (codes "t2")
