-- ===== src/Lib.antt =====
-- The payment library of this repository, modelled and verified.
--
-- An agent buys from a paid HTTP route. The route answers 402 with a challenge; the agent pays
-- through the mandate registry contract and repeats the request with a proof in X-PAYMENT. The
-- middleware decodes the proof, verifies the payment on the chain, redeems it in a store, and hands
-- the request on. Before that the user signs a mandate, in the AP2 profile, and a validator admits it
-- once. There are two middlewares: the legacy one, which redeems a transaction once, and
-- the agent-bound one, whose proofs answer an authenticated challenge and whose store also keeps the
-- bytes that were delivered, so that a repeated request is sent the same answer.
--
-- The files, each with the code that it is about (packages/express-middleware/src is `express`,
-- packages/sdk/src is `sdk`):
--   Common              Booleans, lists, text as UTF-16 code units, dictionaries, numbers, results
--   Payment             express/types.ts: requirements, payments, verdicts; replies of services
--   DeliveryStore       express/bound-store.ts: lookup, claim, complete, get
--   RedemptionStore     express/proof-store.ts and packages/ap2/src/replay-store.ts: consumeOnce
--   Events              express/verification.ts: selectPayment, selectTransfer
--   Amounts             sdk/index.ts toStroops, express/verification.ts formatStroops
--   Verifier            express/verification.ts: verify, its poll loop and its evidence
--   Json                JSON values and the platform's functions
--   X402, X402.Wire, X402.Required
--                       sdk/x402.ts: parsers, the bytes that are signed and digested, and parse402
--   Request             the readers of headers and request values, express/middleware.ts and bound.ts
--   Middleware          express/middleware.ts: the handler
--   BoundRequest, Bound express/bound.ts: the handler's parts, and the handler
--   BoundRoute          express/bound-route.ts: the paid JSON route and the interrupted deliveries
--   PaymentSequence     sdk/payment-sequence.ts
--   Agent, Agent.Pay, Agent.Reconcile, Agent.Fetch
--                       sdk/index.ts, the class Agent: the claim on a mandate, the hydration of a
--                       receipt, pay, reconcilePendingSettlement, acknowledgeDelivery, and the paid
--                       fetch up to its payment
--   RedemptionFile      apps/fulfillment-agent/src/redemption-store.ts: the file store
--   Mandate             sdk/index.ts: createIntentMandate
--   Ap2.Calendar        packages/ap2/src/index.ts: the instants of normalizeExpiry
--   Ap2.Types, Ap2.Canonical, Ap2.Intent, Ap2.Credential
--                       packages/ap2/src/index.ts and credential.ts: binding, signing, parsing and
--                       rebuilding of mandates
--   Ap2.Validator       packages/ap2/src/validator.ts: validateAndConsume
--   Tests               runs of the model and the theorems at concrete inputs
-- The child modules hold proofs, named for what they prove.
--
-- How the code is carried over. A string is the list of its code units. A JavaScript number is an
-- integer or no integer; a BigInt of an amount is a natural number where a guard makes it one. An
-- exception inside a `try` is `none` or an error of a result; an error's text is a constructor.
-- What is not code of the repository is a parameter: `Platform` has node:crypto, Buffer, URL, JSON
-- and the key functions of the Stellar SDK; `Chain` has the RPC reads; the stores are records of
-- operations, filled by the in-memory ones, and an operation may throw or answer what its caller
-- does not support. The theorems assume nothing of the platform, save that the paid route's
-- theorem on replays takes `IsCodec`: text is encoded as bytes, the base64 of bytes stands in its
-- own alphabet and is decoded to them, and a digest is printed in hex; and the theorem on the
-- admission of what was signed takes `SignsFor`: a signature is 64 bytes, its base64 text is read
-- back, and it verifies under the signer's key; and `DrawsNonce`: the random bytes that are drawn
-- for a nonce are 16. A request of the bound middleware runs in two segments, up to the await of
-- the verifier and from there on, and other requests' segments may run in between; the in-memory
-- stores' own operations are synchronous. The file store is its file, as the JSON value that its
-- text is parsed to, and each operation takes how the outside goes: whether the file can be read,
-- and how far a write comes. Its records are members of an ordinary object: a key that is not
-- among them but that every object inherits is found there, and refused as a record. A payment in
-- it keeps its members, and the amount that is a BigInt in memory is a number beside them, printed
-- when the record is written. An operation of the agent is one step, with what the outside gives
-- it as an argument.
--
-- Bounds. The verifier's poll loop recurs on the attempts that are left. A decimal is printed with
-- one unit of fuel more than the number, which has fewer digits than that. The year of an instant
-- is searched from 0 to 9999, the years that four digits write, and an instant counts its seconds
-- from a day before the year 0, so that no zone makes it negative. Date's own calendar is apart
-- from the code's table of months: its years are counted by ECMAScript's DayFromYear. toLowerCase
-- and toUpperCase are those of ASCII letters: the code calls them on hexadecimal hashes, contract
-- ids, header names and HTTP methods. The configuration of a middleware is taken as already
-- checked by its set-up.
--
-- Not modelled: the set-up checks, the decoding of XDR, the response's header lines (a response has
-- its status and its body), the agent's retryDelivery and the paid fetch from its payment on, the
-- command line, the other parts of the applications, and the contract, which is written in Rust.
pub mod Common
pub mod Payment
pub mod DeliveryStore
pub mod RedemptionStore
pub mod Events
pub mod Amounts
pub mod Verifier
pub mod Json
pub mod Mandate
pub mod X402
pub mod Request
pub mod Middleware
pub mod BoundRequest
pub mod Bound
pub mod RedemptionFile
pub mod BoundRoute
pub mod PaymentSequence
pub mod Agent
pub mod Ap2
pub mod Tests
