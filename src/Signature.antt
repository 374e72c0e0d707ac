-- ===== src/Signature.antt =====
-- src/infra/webhook/hmac-verifier.ts: the signature of a webhook delivery. The digest is an
-- argument: the hexadecimal HMAC of a body under a secret. Texts and bodies are lists of code units.
pub mod Digest
mod Tests
use oh_my_github_runner.Prelude.{
  ℕ, ◌+◌, ◌-◌, ◌*◌, String, Bool, true, false, ◌&&◌, Option, none, some, List, [], ◌∷◌, ◌++◌,
  if◌then◌else◌, ◌==◌, leb, length, drop, codes,
}
use oh_my_github_runner.Commands.{Text, starts_with, same_text}

abbrev pub signature_prefix : Text
signature_prefix = codes "sha256="

abbrev pub hex_value : ℕ → Option ℕ
hex_value c =
    if leb 48 c && leb c 57
    then some (c - 48)
    else if leb 97 c && leb c 102
    then some (c - 87)
    else if leb 65 c && leb c 70
    then some (c - 55)
    else none

abbrev pub byte_before : Option ℕ → Option ℕ → List ℕ → List ℕ
byte_before none low rest = []
byte_before (some high) none rest = []
byte_before (some high) (some low) rest = (16 * high + low) ∷ rest

-- `Buffer.from(text, "hex")`: pairs of digits, up to the first that is none.
unfoldable pub from_hex : Text → List ℕ
from_hex [] = []
from_hex (_ ∷ []) = []
from_hex (a ∷ b ∷ rest) = let bytes = from_hex rest in byte_before (hex_value a) (hex_value b) bytes

module _ (hmac : String → Text → Text) where
  -- `timingSafeEqual` throws on different lengths, which counts as a difference too.
  unfoldable pub verify_hub_signature : String → Text → Option Text → Bool
  verify_hub_signature secret raw_body none = false
  verify_hub_signature secret raw_body (some header) =
      let provided = drop (length signature_prefix) header in
      let expected = hmac secret raw_body in
      starts_with signature_prefix header
      && length provided == length expected
      && same_text (from_hex provided) (from_hex expected)

  unfoldable pub compute_hub_signature : String → Text → Text
  compute_hub_signature secret raw_body = signature_prefix ++ hmac secret raw_body
