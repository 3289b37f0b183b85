-- ===== src/Tee/Attested.antt =====
-- What a positive attestation result is worth.
use Prim.Native.String.{◌++◌}
use mathlib.Core.Path.{subst}
use ronak_agentk_runtime.Base.{
  ℕ, String, true, Option, none, some, List, length, take, drop, ◌==◌, eqb, eq_iff, is_empty,
  Result, ok, err, ◌≡◌, refl, arith, Bool-cases, inl, inr,
}
use ronak_agentk_runtime.Tee.Verifier.{
  AttestationQuote, AttestationResponse, AttestationResult, HttpReply, unreachable, answered,
  Library, choose_key, parse_public_key, verify_bytes, verify_ecdsa_signature, verified_with,
  check_response, check_reply, ask, verify_attestation,
}

module _ (l : Library) where
  open l use {Ecdsa, hex_decode, sha256, ecdsa_verify, marshal_quote, decode_response, post}

  -- A quote that answers a nonce, and whose 64-byte signature the chosen key verifies.
  pub record IsAttested (trusted : List String) (nonce : String) (quote : AttestationQuote)
      : Type 0 where
    pub response : AttestationResponse
    pub body : String
    pub key : Ecdsa
    pub bytes : List ℕ
    pub received : decode_response body ≡ ok response
    pub same_quote : quote ≡ response.quote
    pub fresh : response.quote.nonce ≡ nonce
    pub chosen : parse_public_key l (choose_key trusted response.public_key) ≡ ok key
    pub decoded : hex_decode response.signature ≡ some bytes
    pub sized : length bytes ≡ 64
    pub signed :
        ecdsa_verify key (sha256 (marshal_quote quote)) (take 32 bytes) (take 32 (drop 32 bytes))
        ≡ true

  signature_lem :
      (key : Ecdsa) (text : String) (o : Option (List ℕ))
      → verify_bytes l key text o ≡ true
      → (bytes : List ℕ) × (o ≡ some bytes)
        × (length bytes ≡ 64)
        × (ecdsa_verify key (sha256 text) (take 32 bytes) (take 32 (drop 32 bytes)) ≡ true)
  signature_lem key text none h = cc h
  signature_lem key text (some bytes) h = elim (Bool-cases (eqb (length bytes) 64)) [
    | inl sized ↦ (bytes, refl, ground arith, rw sized at h)
    | inr other ↦ cc (rw other at h)
  ]

  -- The result of the last two steps.
  abbrev Holds : List String → String → Result AttestationResult → Type 0
  Holds trusted nonce (err m) = Unit
  Holds trusted nonce (ok r) = r.verified ≡ true → IsAttested trusted nonce r.quote

  verified_with-IsAttested :
      (trusted : List String) (nonce body : String) (resp : AttestationResponse) (k : Result Ecdsa)
      → decode_response body ≡ ok resp
      → resp.quote.nonce ≡ nonce
      → parse_public_key l (choose_key trusted resp.public_key) ≡ k
      → (verified_with l resp k).verified ≡ true
      → IsAttested trusted nonce (verified_with l resp k).quote
  unfolding verify_ecdsa_signature
  verified_with-IsAttested trusted nonce body resp (err m) got fresh chosen h = cc h
  verified_with-IsAttested trusted nonce body resp (ok key) got fresh chosen h =
      let (bytes, decoded, sized, signed) =
        signature_lem key (marshal_quote resp.quote) (hex_decode resp.signature) h in
      record {
        response = resp;
        body = body;
        key = key;
        bytes = bytes;
        received = got;
        same_quote = refl;
        fresh = fresh;
        chosen = chosen;
        decoded = decoded;
        sized = sized;
        signed = signed;
      }

  check_response-Holds :
      (trusted : List String) (nonce body : String) (resp : Result AttestationResponse)
      → decode_response body ≡ resp
      → Holds trusted nonce (check_response l nonce trusted resp)
  check_response-Holds trusted nonce body (err m) got = tt
  check_response-Holds trusted nonce body (ok resp) got =
      elim (Bool-cases (resp.quote.nonce == nonce)) [
        | inl same ↦ rw same (
            verified_with-IsAttested trusted nonce body resp
              (parse_public_key l (choose_key trusted resp.public_key)) got
              ((eq_iff resp.quote.nonce nonce).0 same) refl)
        | inr other ↦ rw other (λ h. cc h)
      ]

  check_reply-Holds :
      (trusted : List String) (nonce : String) (reply : HttpReply)
      → Holds trusted nonce (check_reply l nonce trusted reply)
  check_reply-Holds trusted nonce (unreachable m) = λ h. cc h
  check_reply-Holds trusted nonce (answered status body) = elim (Bool-cases (eqb status 200)) [
    | inl good ↦ rw good (check_response-Holds trusted nonce body (decode_response body) refl)
    | inr bad ↦ rw bad (λ h. cc h)
  ]

  ask-Holds :
      (endpoint nonce : String) (trusted : List String) (body : Result String)
      → Holds trusted nonce (ask l endpoint nonce trusted body)
  ask-Holds endpoint nonce trusted (err m) = tt
  ask-Holds endpoint nonce trusted (ok body) =
      check_reply-Holds trusted nonce (post (endpoint ++ "/attest") body)

  -- If the verification of an attestation gives a result marked verified, then the quote is that
  -- of a decoded response that carries the nonce that was sent, and its signature is 64 bytes that
  -- ECDSA verifies over the quote's SHA-256 under the key chosen: the first trusted key where one
  -- is given and not empty, else the response's own.
  pub verify_attestation-IsAttested :
      (nonce endpoint agent_name namespace : String) (trusted : List String) (r : AttestationResult)
      → verify_attestation l (ok nonce) endpoint agent_name namespace trusted ≡ ok r
      → r.verified ≡ true
      → IsAttested trusted nonce r.quote
  unfolding verify_attestation
  verify_attestation-IsAttested nonce endpoint agent_name namespace trusted r e v =
      let all : Holds trusted nonce
          (verify_attestation l (ok nonce) endpoint agent_name namespace trusted) =
        elim (Bool-cases (is_empty endpoint)) [
          | inl none' ↦ rw none' (λ h. cc h)
          | inr some' ↦ rw some' (ask-Holds endpoint nonce trusted _)
        ] in
      (subst (Holds trusted nonce) e all) v
