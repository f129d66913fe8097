-- ===== src/Ap2/Canonical.antt =====
-- Canonical JSON text, with sorted keys: `canonicalize` of packages/ap2/src/credential.ts, which
-- is `canonicalizeJson` of index.ts on parsed JSON. The numbers that reach it are integers, so
-- that its test for finite numbers passes.
use reapp_protocol.Common.{List, Text, [], if◌then◌else◌, lit, map, ◌++◌, ◌∷◌}
use reapp_protocol.Json.{
  Json, null, bool, num, str, arr, Items, nil, cons, obj, Fields, end, field, Platform, text_le,
}

-- `entries.join(",")`
unfoldable pub join_comma : List Text → Text
join_comma [] = []
join_comma (t ∷ []) = t
join_comma (t ∷ u ∷ ts) = t ++ b',' ∷ join_comma (u ∷ ts)

-- Insertion of a member into members sorted by their keys.
unfoldable pub insert_member : Text × Text → List (Text × Text) → List (Text × Text)
insert_member (k, v) [] = (k, v) ∷ []
insert_member (k, v) ((j, w) ∷ ms) =
    let rest = insert_member (k, v) ms in
    if text_le k j then (k, v) ∷ (j, w) ∷ ms else (j, w) ∷ rest

unfoldable pub sort_members : List (Text × Text) → List (Text × Text)
unfolding insert_member
sort_members [] = []
sort_members (m ∷ ms) = insert_member m (sort_members ms)

module _ (platform : Platform) where
  -- `${JSON.stringify(key)}:${text}`
  abbrev member_text : Text × Text → Text
  member_text (k, v) = platform.stringify (str k) ++ b':' ∷ v

  unfoldable mutual
    unfolding join_comma sort_members

    pub canonicalize : Json → Text
    canonicalize null = lit "null"
    canonicalize (bool b) = platform.stringify (bool b)
    canonicalize (num n) = platform.stringify (num n)
    canonicalize (str s) = platform.stringify (str s)
    canonicalize (arr items) = b'[' ∷ (join_comma (canonical_items items) ++ b']' ∷ [])
    canonicalize (obj fields) =
        b'{' ∷ (join_comma (map member_text (sort_members (canonical_members fields))) ++ b'}' ∷ [])

    pub canonical_items : Items → List Text
    canonical_items nil = []
    canonical_items (cons v vs) = canonicalize v ∷ canonical_items vs

    pub canonical_members : Fields → List (Text × Text)
    canonical_members end = []
    canonical_members (field k v fs) = (k, canonicalize v) ∷ canonical_members fs
