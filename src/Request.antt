-- ===== src/Request.antt =====
-- What the middlewares read of an Express request, and the helpers that both of them define:
-- packages/express-middleware/src/middleware.ts and bound.ts.
use reapp_protocol.Common.{
  Bool, List, Option, Text, [], all, if◌then◌else◌, is_exact, length, lit, ltb, none, not, some,
  text_eq, to_lower, ℕ, ◌++◌, ◌==◌, ◌||◌, ◌∷◌,
}
use reapp_protocol.Json.{Platform, is_base64}

-- `raw_headers` alternates names and values, as Node gives them.
pub record Request : Type 0 where
  pub method : Text
  pub original_url : Text
  pub url : Text
  pub raw_headers : List Text

-- A value given at set-up, or a function of the request, which may throw.
pub data RequestValue : Type 0 where
  static : Text → RequestValue
  computed : (Request → Option Text) → RequestValue

abbrev pub exact_text : Text → Option Text
exact_text s = if is_exact s then some s else none

unfoldable pub resolve_request_value : RequestValue → Request → Option Text
resolve_request_value (static s) request = exact_text s
resolve_request_value (computed f) request = elim (f request) [
  | none ↦ none
  | some s ↦ exact_text s
]

-- The resource: resolved, or the request's own URL where none is configured.
unfoldable pub resolve_resource : Option RequestValue → Request → Option Text
unfolding resolve_request_value
resolve_resource (some v) request = resolve_request_value v request
resolve_resource none request =
    exact_text (if text_eq request.original_url [] then request.url else request.original_url)

-- The values of the raw headers of one name. A name without a value is passed over.
unfoldable pub header_values : Text → List Text → List Text
header_values name [] = []
header_values name (n ∷ []) = []
header_values name (n ∷ v ∷ rest) =
    let others = header_values name rest in if text_eq (to_lower n) name then v ∷ others else others

-- One header, none, or an error: more than one, or one that is too long.
pub data OneHeader : Type 0 where
  no_header rejected_header : OneHeader
  one_header : Text → OneHeader

module _ (platform : Platform) where
  unfoldable pub one_raw_header : Request → Text → ℕ → OneHeader
  unfolding header_values
  one_raw_header request name max_bytes = elim (header_values name request.raw_headers) [
    | [] ↦ no_header
    | v ∷ vs ↦ elim vs [
      | [] ↦ if ltb max_bytes (length (platform.to_utf8 v)) then rejected_header else one_header v
      | _ ∷ _ ↦ rejected_header
    ]
  ]

  abbrev has_comma : Text → Bool
  has_comma s = not (all (λ c. not (c == b',')) s)

  unfoldable pub canonical_header : OneHeader → OneHeader
  canonical_header no_header = no_header
  canonical_header rejected_header = rejected_header
  canonical_header (one_header h) =
      if text_eq h []
        || has_comma h
        || not (is_base64 h)
        || not (text_eq (platform.to_base64 (platform.of_base64 h)) h)
      then rejected_header
      else one_header h

  unfoldable pub canonical_payment_header : Request → ℕ → OneHeader
  unfolding one_raw_header canonical_header
  canonical_payment_header request max_bytes =
      canonical_header (one_raw_header request (lit "x-payment") max_bytes)

  -- `createRedemptionKey`
  unfoldable pub redemption_key : Text → Text → Text → Text
  redemption_key network_passphrase registry_id tx_hash =
      platform.to_hex (platform.sha256 (platform.to_utf8 network_passphrase))
      ++ b':' ∷ (to_lower registry_id ++ b':' ∷ to_lower tx_hash)
