-- ===== src/X402/Wire.antt =====
-- The bytes that are authenticated and signed: `boundChallengeAuthorizationBytes`,
-- `boundProofDigest`, `createBoundPaymentProof` and `verifyBoundPaymentProofSignature` of
-- packages/sdk/src/x402.ts.
use reapp_protocol.Common.{
  Bool, List, Option, Text, [], false, guard, int, is_hex64, lit, none, ok, pos, some, text_eq,
  to_lower, ℕ, ◌&&◌, ◌++◌, ◌>>=◌, ◌>>◌, ◌∷◌,
}
use reapp_protocol.Json.{Json, null, num, str, obj, Fields, end, field, Platform}
use reapp_protocol.X402.{
  bad_tx_hash, bad_mandate_id, Parsed, BoundChallenge, BoundProof, canonical_base64,
  parse_challenge,
}

abbrev nul : ℕ
nul = 0

abbrev pub challenge_domain : Text
challenge_domain =
    lit "REAPP" ++ nul ∷ (lit "X402" ++ nul ∷ (lit "CHALLENGE" ++ nul ∷ (lit "V2" ++ nul ∷ [])))

abbrev pub proof_domain : Text
proof_domain =
    lit "REAPP" ++ nul ∷ (lit "X402" ++ nul ∷ (lit "BOUND-PROOF" ++ nul ∷ (lit "V2" ++ nul ∷ [])))

abbrev natural_json : ℕ → Json
natural_json n = num (int (pos n))

abbrev optional_json : Option Text → Json
optional_json none = null
optional_json (some s) = str s

-- The object that is authenticated: a challenge without its authorization.
unfoldable pub unsigned_fields : BoundChallenge → Fields → Fields
unsigned_fields c rest = field (lit "proofVersion") (natural_json c.proof_version) (
    field (lit "challengeId") (str c.challenge_id) (
      field (lit "audience") (str c.audience) (
        field (lit "scheme") (str c.scheme) (
          field (lit "method") (str c.method) (
            field (lit "resource") (str c.resource) (
              field (lit "bodySha256") (optional_json c.body_sha256) (
                field (lit "network") (str c.network) (
                  field (lit "networkId") (str c.network_id) (
                    field (lit "registryId") (str c.registry_id) (
                      field (lit "merchant") (str c.merchant) (
                        field (lit "asset") (str c.asset) (
                          field (lit "amountStroops") (str c.amount_stroops) (
                            field (lit "decimals") (natural_json c.decimals) (
                              field (lit "issuedAt") (natural_json c.issued_at) (
                                field (lit "expiresAt") (natural_json c.expires_at)
                                  rest)))))))))))))))

unfoldable pub challenge_json : BoundChallenge → Json
unfolding unsigned_fields
challenge_json c = obj (
    unsigned_fields c (
      field (lit "authorization")
        (obj (
          field (lit "algorithm") (str c.authorization.algorithm)
            (field (lit "mac") (str c.authorization.mac) end)))
        end))

unfoldable pub proof_json : BoundProof → Json
unfolding challenge_json
proof_json p = obj (
    field (lit "proofVersion") (natural_json p.proof_version) (
      field (lit "scheme") (str p.scheme) (
        field (lit "network") (str p.network) (
          field (lit "txHash") (str p.tx_hash) (
            field (lit "mandateId") (str p.mandate_id) (
              field (lit "challenge") (challenge_json p.challenge) (
                field (lit "authorization")
                  (obj (
                    field (lit "algorithm") (str p.algorithm)
                      (field (lit "signature") (str p.signature) end)))
                  end)))))))

module _ (platform : Platform) where
  unfoldable pub authorization_bytes : BoundChallenge → List ℕ
  authorization_bytes c =
      platform.to_utf8 challenge_domain
      ++ platform.to_utf8 (platform.stringify (obj (unsigned_fields c end)))

  unfoldable pub hash_challenge : BoundChallenge → Text
  unfolding authorization_bytes
  hash_challenge c = platform.to_hex (platform.sha256 (authorization_bytes c))

  abbrev digest_fields : BoundChallenge → Text → Text → Fields
  digest_fields c tx_hash mandate_id = field (lit "proofVersion") (natural_json 2) (
      field (lit "scheme") (str c.scheme) (
        field (lit "network") (str c.network) (
          field (lit "networkId") (str c.network_id) (
            field (lit "registryId") (str c.registry_id) (
              field (lit "challengeId") (str c.challenge_id) (
                field (lit "challengeHash") (str (hash_challenge c)) (
                  field (lit "txHash") (str tx_hash)
                    (field (lit "mandateId") (str mandate_id) end))))))))

  unfoldable pub proof_digest_bytes : BoundChallenge → Text → Text → Parsed (List ℕ)
  proof_digest_bytes c tx mandate = do
    let tx_hash = to_lower tx
    let mandate_id = to_lower mandate
    guard (is_hex64 tx_hash) bad_tx_hash
    guard (is_hex64 mandate_id) bad_mandate_id
    ok (
        platform.sha256 (
          platform.to_utf8 proof_domain
          ++ platform.to_utf8 (platform.stringify (obj (digest_fields c tx_hash mandate_id)))))

  -- A signer gives the signature of a digest; `createBoundPaymentProof` reads the challenge again.
  unfoldable pub create_proof : BoundChallenge → Text → Text → (List ℕ → List ℕ) → Parsed BoundProof
  unfolding proof_digest_bytes
  create_proof given tx mandate sign = do
    c ← parse_challenge platform (some (challenge_json given))
    let tx_hash = to_lower tx
    let mandate_id = to_lower mandate
    digest ← proof_digest_bytes c tx_hash mandate_id
    ok (record {
      proof_version = 2;
      scheme = c.scheme;
      network = c.network;
      tx_hash = tx_hash;
      mandate_id = mandate_id;
      challenge = c;
      algorithm = lit "stellar-ed25519-sha256";
      signature = platform.to_base64 (sign digest);
    })

  abbrev signature_holds : Text → Parsed Text → Parsed (List ℕ) → Bool
  signature_holds agent (ok signature) (ok digest) =
      elim (platform.verify_signature agent digest (platform.of_base64 signature)) [
        | some verdict ↦ verdict
        | none ↦ false
      ]
  signature_holds agent _ _ = false

  -- Whatever throws on the way makes the answer false.
  unfoldable pub verify_proof_signature : BoundProof → Text → Bool
  unfolding proof_digest_bytes
  verify_proof_signature proof agent =
      text_eq proof.algorithm (lit "stellar-ed25519-sha256")
      && signature_holds agent (canonical_base64 platform (some (str proof.signature)) 64)
          (proof_digest_bytes proof.challenge proof.tx_hash proof.mandate_id)
