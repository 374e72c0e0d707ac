-- ===== src/Signature/Digest.antt =====
-- `verifyHubSignature` against the digest.
use oh_my_github_runner.Prelude.{String, ◌≡◌, refl, true, some, [], ◌∷◌, arith, length, drop}
use oh_my_github_runner.Commands.{Text, starts_with, same_text}
use oh_my_github_runner.Signature.{
  signature_prefix, from_hex, verify_hub_signature, compute_hub_signature,
}

pub same_text_refl : (cs : Text) → same_text cs cs ≡ true
unfolding same_text
same_text_refl [] = refl
same_text_refl (c ∷ cs) = ground (arith, same_text_refl cs)

pub same_text_sound : (cs ds : Text) → same_text cs ds ≡ true → cs ≡ ds
unfolding same_text
same_text_sound [] [] h = refl
same_text_sound [] (d ∷ ds) h = cc
same_text_sound (c ∷ cs) [] h = cc
same_text_sound (c ∷ cs) (d ∷ ds) h = ground (arith, same_text_sound cs ds)

-- A signature that was computed for a body and a secret is accepted for them.
pub verify-compute :
    (hmac : String → Text → Text) (secret : String) (raw_body : Text)
    → verify_hub_signature hmac secret raw_body (some (compute_hub_signature hmac secret raw_body))
      ≡ true
unfolding verify_hub_signature compute_hub_signature starts_with
verify-compute hmac secret raw_body =
    ground (arith, same_text_refl (from_hex (hmac secret raw_body)))

-- An accepted header has the bytes of the digest: no other one passes.
pub verify_sound :
    (hmac : String → Text → Text) (secret : String) (raw_body header : Text)
    → verify_hub_signature hmac secret raw_body (some header) ≡ true
    → from_hex (drop (length signature_prefix) header) ≡ from_hex (hmac secret raw_body)
unfolding verify_hub_signature
verify_sound hmac secret raw_body header h = same_text_sound _ _ (ground (arith, h))
