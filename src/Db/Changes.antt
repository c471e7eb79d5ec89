-- ===== src/Db/Changes.antt =====
-- pkg/db/db.go: the options of `Put` and `Delete`, which give the ETag that a change expects.
use jaydb.Base.{◌≡◌, refl, List, [], ◌∷◌, Str, codes}
use jaydb.Storage.{match_any_etag}

pub data PutOption : Type 0 where
  with_expected_etag : Str → PutOption
  create_only : PutOption

-- What an option sets the field to.
abbrev pub chosen_etag : PutOption → Str
chosen_etag (with_expected_etag etag) = etag
chosen_etag create_only = match_any_etag

-- The options in their order: the last one decides.
unfoldable pub apply_options : List PutOption → Str → Str
apply_options [] etag = etag
apply_options (o ∷ os) etag = apply_options os (chosen_etag o)

-- `WithDeleteExpectedETag`, the one option of `Delete`.
unfoldable pub apply_delete_options : List Str → Str → Str
apply_delete_options [] etag = etag
apply_delete_options (e ∷ es) etag = apply_delete_options es e

last_decides : apply_options (with_expected_etag (codes "t") ∷ create_only ∷ []) [] ≡ codes "*"
unfolding apply_options
last_decides = refl

delete_options : apply_delete_options (codes "t" ∷ codes "u" ∷ []) [] ≡ codes "u"
unfolding apply_delete_options
delete_options = refl
