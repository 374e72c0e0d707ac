-- ===== src/Signature/Tests.antt =====
-- Runs of the signature test, with a digest that is constant.
use oh_my_github_runner.Prelude.{String, ◌≡◌, refl, false, some, [], codes}
use oh_my_github_runner.Commands.{Text, starts_with, same_text}
use oh_my_github_runner.Signature.{from_hex, verify_hub_signature}

abbrev digest : String → Text → Text
digest secret raw_body = codes "0aFf"

other_digest : verify_hub_signature digest "s" [] (some (codes "sha256=0aFe")) ≡ false
unfolding verify_hub_signature starts_with from_hex same_text
other_digest = refl
