-- ===== src/Json.antt =====
-- JSON values as the packages read them, and what they take from their platform: node:crypto,
-- Buffer, URL, JSON and the Stellar SDK's key handling, none of which is code of this repository.
use reapp_protocol.Common.{
  Bool, List, Number, Option, Text, [], false, if◌then◌else◌, is_digit, leb, ltb, none, some,
  text_eq, true, ℕ, ◌&&◌, ◌==◌, ◌||◌, ◌∷◌,
}

-- An object is a list of its own keys with their values.
mutual
  pub data Json : Type 0 where
    null : Json
    bool : Bool → Json
    num : Number → Json
    str : Text → Json
    arr : Items → Json
    obj : Fields → Json

  pub data Items : Type 0 where
    nil : Items
    cons : Json → Items → Items

  pub data Fields : Type 0 where
    end : Fields
    field : Text → Json → Fields → Fields

pub record Url : Type 0 where
  pub protocol : Text
  pub origin : Text
  pub username : Text
  pub password : Text
  pub pathname : Text
  pub search : Text
  pub fragment : Text

-- A function that may throw gives an option.
pub record Platform : Type 0 where
  pub sha256 : List ℕ → List ℕ
  pub hmac_sha256 : List ℕ → List ℕ → List ℕ
  pub to_utf8 : Text → List ℕ
  pub of_utf8 : List ℕ → Text
  pub to_hex : List ℕ → Text
  pub to_base64 : List ℕ → Text
  pub of_base64 : Text → List ℕ
  pub to_base64url : List ℕ → Text
  pub of_base64url : Text → List ℕ
  pub parse_json : Text → Option Json
  pub stringify : Json → Text
  pub parse_url : Text → Option Url
  pub verify_signature : Text → List ℕ → List ℕ → Option Bool

-- `value.key`, `undefined` where the key is absent.
unfoldable pub member : Text → Fields → Option Json
member k end = none
member k (field j v fs) = if text_eq j k then some v else member k fs

unfoldable pub keys : Fields → List Text
keys end = []
keys (field k v fs) = k ∷ keys fs

-- The order of `Array.prototype.sort` on strings: by UTF-16 code units.
unfoldable pub text_le : Text → Text → Bool
text_le [] t = true
text_le (a ∷ s) [] = false
text_le (a ∷ s) (b ∷ t) = let rest = text_le s t in if ltb a b then true else (a == b) && rest

unfoldable pub insert_sorted : Text → List Text → List Text
insert_sorted t [] = t ∷ []
insert_sorted t (u ∷ us) =
    let rest = insert_sorted t us in if text_le t u then t ∷ u ∷ us else u ∷ rest

unfoldable pub sort_texts : List Text → List Text
unfolding insert_sorted text_le
sort_texts [] = []
sort_texts (t ∷ ts) = insert_sorted t (sort_texts ts)

unfoldable pub texts_equal : List Text → List Text → Bool
texts_equal [] [] = true
texts_equal (s ∷ ss) (t ∷ ts) = text_eq s t && texts_equal ss ts
texts_equal _ _ = false

-- `exactKeys`, where it gives a Boolean.
unfoldable pub has_exact_keys : Fields → List Text → Bool
unfolding keys sort_texts texts_equal
has_exact_keys value expected = texts_equal (sort_texts (keys value)) (sort_texts expected)

-- `/^(?:[A-Za-z0-9+/]{4})*(?:[A-Za-z0-9+/]{2}==|[A-Za-z0-9+/]{3}=)?$/`
abbrev pub is_base64_digit : ℕ → Bool
is_base64_digit c =
    (leb b'A' c && leb c b'Z')
    || (leb b'a' c && leb c b'z')
    || is_digit c
    || (c == b'+')
    || (c == b'/')

unfoldable pub is_base64 : Text → Bool
is_base64 [] = true
is_base64 (a ∷ b ∷ c ∷ d ∷ s) =
    let four = is_base64_digit a && is_base64_digit b && is_base64_digit c && is_base64_digit d in
    let last_two = is_base64_digit a && is_base64_digit b && (c == b'=') && (d == b'=') in
    let last_three = is_base64_digit a && is_base64_digit b && is_base64_digit c && (d == b'=') in
    (four && is_base64 s) || ((last_two || last_three) && text_eq s [])
is_base64 _ = false
