-- ===== src/Capabilities/Tests.antt =====
-- Capabilities of lib/security at concrete digests.
use growth_sent.Prelude.{
  ◌≡◌, refl, true, false, some, none, String, ◌===◌, if◌then◌else◌, codes, length, all, if-elim,
  map, lower, ok, to_lower_case, from_codes, text_length,
}
use growth_sent.Capabilities.{
  Sha256, is_lower_hex, verify_opaque_access_token, hash_opaque_access_token, RequesterHost,
  create_common_crawl_requester_key, user_subject,
}
use growth_sent.Capabilities.Tokens.{verify-digest}

abbrev digest_text : String
digest_text = "00112233445566778899aabbccddeeff00112233445566778899aabbccddeeff"

abbrev upper_text : String
upper_text = "00112233445566778899AABBCCDDEEFF00112233445566778899AABBCCDDEEFF"

abbrev other_text : String
other_text = "ffffffffffffffffffffffffffffffffffffffffffffffffffffffffffffffff"

abbrev digests : Sha256
digests = record {
  digest = λ text. if text === "token" then digest_text else other_text;
  digest-length = λ text.
      if-elim (λ d. length (codes d) ≡ 64) (text === "token") (λ same. refl) (λ other. refl);
  digest-all = λ text.
      if-elim (λ d. all is_lower_hex (codes d) ≡ true) (text === "token") (λ same. refl)
        (λ other. refl);
}

accepted : verify_opaque_access_token digests (some "token") (some upper_text) ≡ true
unfolding verify_opaque_access_token
accepted = refl

refused : verify_opaque_access_token digests (some "guess") (some digest_text) ≡ false
unfolding verify_opaque_access_token
refused = refl

verify-digest_example :
    map lower (codes upper_text) ≡ codes (hash_opaque_access_token digests "token")
verify-digest_example = verify-digest digests "token" upper_text accepted

abbrev requester_host : RequesterHost
requester_host = record {
  hmac_sha256 = λ secret text. text;
  is_ip = λ text. text === "198.51.100.7";
  session_secret = some "0123456789abcdef0123456789abcdef";
}

key_test :
    create_common_crawl_requester_key requester_host (some "0123456789ABCDEF01234567") none
    ≡ ok "ccr_user:0123456789abcdef01234567"
unfolding create_common_crawl_requester_key to_lower_case from_codes user_subject text_length
key_test = refl
